-- ===== src/Security/Audit/Chain.antt =====
-- The chain that a run of audit records leaves in the WORM file.
use do_logger.Prelude.{
  ℕ, ◌+◌, ◌≡◌, refl, ap, Bool, true, false, Option, none, some, List, ◌++◌, if◌then◌else◌, ◌%◌, ◌^◌,
  ◌&&◌, ◌<◌, ◌∙◌, arith, ltb, [], ◌∷◌,
}
use do_logger.Prelude.Bytes.{le}
use do_logger.Record.Fields.{Record, hash_input, compute_content_hash}
use do_logger.Sink.Worm.{
  WormSink, PendingRecord, persist, write_raw, write_worm_record_internal, SinkResult,
}
use do_logger.Sink.Worm.Order.{waiting_none, Continues, write_in_order, one_fails}
use do_logger.Security.Audit.{
  AuditChain, Lines, Outcomes, has_sidecar, prepared, set_bit, sign_record, stamped_record,
  AuditResult, append_sidecar, conclude, level_is_audit, is_signed, pending, process_audit_record,
  processed,
}

-- A chain whose sink is open and keeps no record waiting, and has the numbers of the consumer.
unfoldable pub level_with : WormSink → Option Lines → List ℕ → ℕ → AuditChain
level_with w lines hash next = record {
  worm = waiting_none w;
  sidecar = lines;
  prev_content_hash = hash;
  prev_lsn = w.last_lsn;
  next_lsn = next;
}

abbrev pub in_order : ℕ → Outcomes
in_order now = record { now = now; security = true; sidecar = true }

conclude_accepted :
    (t : ℕ) (s : Record × Option (List ℕ)) (c : AuditChain)
    → conclude (in_order t) s c SinkResult.accepted ≡ (
      record c {
        sidecar = append_sidecar s c.sidecar;
        prev_content_hash = s.0.content_hash;
        prev_lsn = s.0.lsn;
      },
      processed,
    )
unfolding conclude
conclude_accepted t s c = rw (one_fails (is_signed s.1 && has_sidecar c.sidecar) true refl) refl

module _ (sha256 : List ℕ → List ℕ) (sign : List ℕ → List ℕ) (gap_marker : ℕ → ℕ → List ℕ)
    (envelope : Record → Option (List ℕ) → List ℕ) where
  -- The record under the number after the last, with its digest, and a signature of the number, the
  -- digest and the hash of the record before.
  unfoldable pub stamp : Bool → List ℕ → ℕ → Record → Record × Option (List ℕ)
  stamp signed hash last r =
      let s =
        compute_content_hash sha256
          (record r { flags = set_bit 2 signed (set_bit 4 true r.flags); lsn = last + 1 }) in
      (
        s,
        if signed
            then some
                (sign (sha256 (le 8 (last + 1) ++ (s.content_hash ++ sha256 (hash ++ le 8 last)))))
            else none,
      )

  stamped_record_level :
      (signed : Bool) (w : WormSink) (lines : Option Lines) (hash : List ℕ) (next : ℕ) (r : Record)
      → (signed ≡ true → next ≡ w.last_lsn + 1)
      → stamped_record sha256 sign gap_marker envelope signed (level_with w lines hash next) r
        ≡ stamp signed hash w.last_lsn r
  unfolding stamped_record prepared sign_record level_with stamp compute_content_hash hash_input
  stamped_record_level false w lines hash next r h = refl
  stamped_record_level true w lines hash next r h =
      ap (λ n. stamped_record sha256 sign gap_marker envelope true (level_with w lines hash n) r)
        (h refl)

  -- What is handed to the sink for a record.
  abbrev pub link : Bool → List ℕ → ℕ → Record → PendingRecord
  link signed hash last r =
      let s = stamp signed hash last r in
      record {
        data_bytes = envelope s.0 s.1;
        prev_hash = sha256 (hash ++ le 8 last);
        content_hash = some s.0.content_hash;
      }

  pub process_level :
      (signed : Bool) (t : ℕ) (w : WormSink) (lines : Option Lines) (hash : List ℕ) (next : ℕ)
      (r : Record)
      → (signed ≡ true → next ≡ w.last_lsn + 1)
      → level_is_audit r.level ≡ true
      → w.last_lsn + 1 < 2 ^ 64
      → Continues (link signed hash w.last_lsn r) w
      → let s = stamp signed hash w.last_lsn r in
        process_audit_record sha256 sign gap_marker envelope signed
          (in_order t)
          r
          (level_with w lines hash next)
        ≡ (
          level_with
              (persist sha256 (w.last_lsn + 1) (link signed hash w.last_lsn r) (waiting_none w))
              (append_sidecar s lines)
              s.0.content_hash
              (if signed then (next + 1) % 2 ^ 64 else next),
          processed,
        )
  unfolding process_audit_record stamp level_with compute_content_hash conclude pending persist
      write_raw
  process_level signed t w lines hash next r k a n c =
      let b : ltb (w.last_lsn + 1) (2 ^ 64) ≡ true = ground arith in
      let s = stamp signed hash w.last_lsn r in
      let l = level_with w lines hash next in
      let body : Record × Option (List ℕ) → AuditChain × AuditResult = λ s.
        let v =
          write_worm_record_internal sha256 gap_marker t s.0.lsn
            (pending sha256 sign gap_marker envelope l s) l.worm in
        conclude (in_order t) s
          (record l {
            worm = v.0;
            next_lsn = if signed then (l.next_lsn + 1) % 2 ^ 64 else l.next_lsn;
          })
          v.1 in
      let e₁ : process_audit_record sha256 sign gap_marker envelope signed (in_order t) r l
          ≡ body (stamped_record sha256 sign gap_marker envelope signed l r) =
        rw (a, b) refl in
      e₁
      ∙ ap body (stamped_record_level signed w lines hash next r k)
      ∙ ap
          (λ v.
            conclude (in_order t) s
              (record l {
                worm = v.0;
                next_lsn = if signed then (l.next_lsn + 1) % 2 ^ 64 else l.next_lsn;
              })
              v.1)
          (write_in_order sha256 gap_marker t (link signed hash w.last_lsn r) w c)
      ∙ conclude_accepted t s (record l {
        worm = persist sha256 (w.last_lsn + 1) (link signed hash w.last_lsn r) (waiting_none w);
        next_lsn = if signed then (l.next_lsn + 1) % 2 ^ 64 else l.next_lsn;
      })

  -- The records as they are stamped_record one after the other.
  unfoldable pub transcript :
      Bool → List ℕ → ℕ → List (ℕ × Record) → List (Record × Option (List ℕ))
  transcript signed hash last [] = []
  transcript signed hash last (x ∷ rs) =
      let s = stamp signed hash last x.1 in s ∷ transcript signed s.0.content_hash (last + 1) rs

  unfoldable pub envelopes : List (Record × Option (List ℕ)) → List ℕ
  envelopes [] = []
  envelopes (s ∷ rest) = envelope s.0 s.1 ++ envelopes rest

-- Records with the times they come at, which the security sink and the sidecar take.
unfoldable pub all_taken : List (ℕ × Record) → List (Outcomes × Record)
all_taken [] = []
all_taken (x ∷ xs) = (in_order x.0, x.1) ∷ all_taken xs

pub data AllAudit : List (ℕ × Record) → Type 0 where
  no_more : AllAudit []
  one_more :
      {x : ℕ × Record} {xs : List (ℕ × Record)}
      → level_is_audit x.1.level ≡ true
      → AllAudit xs
      → AllAudit (x ∷ xs)
