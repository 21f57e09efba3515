-- ===== src/Security/Audit/Runs.antt =====
-- A run of audit records through process_audit_record into the WORM file.
use do_logger.Prelude.{
  ℕ, ◌+◌, ◌%◌, ◌^◌, ◌<◌, ◌≡◌, refl, sym, Bool, true, Option, List, [], ◌∷◌, ◌++◌, append-nil, arith,
  if◌then◌else◌, length, ap, ◌∙◌, false, append_assoc, ltb,
}
use do_logger.Record.Fields.{Record}
use do_logger.Sink.Worm.{WormSink, persist, contents, derive_chain_link}
use do_logger.Sink.Worm.Order.{Continues, Continues-persist, contents-persist, waiting_none}
use do_logger.Security.Audit.{Lines, append_sidecar, drain_records, processed, unless_failed}
use do_logger.Security.Audit.Chain.{
  AllAudit, envelopes, level_with, link, one_more, process_level, stamp, all_taken, transcript,
}

next_number :
    (signed : Bool) (next last : ℕ)
    → (signed ≡ true → next ≡ last + 1)
    → last + 2 < 2 ^ 64
    → signed ≡ true
    → (if signed then (next + 1) % 2 ^ 64 else next) ≡ last + 1 + 1
next_number true next last k n e = let h = k refl in omega arith
next_number false next last k n e = absurd cc

module _ (sha256 : List ℕ → List ℕ) (sign : List ℕ → List ℕ) (gap_marker : ℕ → ℕ → List ℕ)
    (envelope : Record → Option (List ℕ) → List ℕ) where
  -- The records after the first name the hash of the one before.
  Continues-link :
      (signed : Bool) (hash : List ℕ) (w : WormSink) (r next : Record)
      → let s = stamp sha256 sign gap_marker envelope signed hash w.last_lsn r in
        Continues
          (link sha256 sign gap_marker envelope signed s.0.content_hash (w.last_lsn + 1) next)
          (persist sha256
            (w.last_lsn + 1)
            (link sha256 sign gap_marker envelope signed hash w.last_lsn r)
            (waiting_none w))
  unfolding derive_chain_link
  Continues-link signed hash w r next =
      let s = stamp sha256 sign gap_marker envelope signed hash w.last_lsn r in
      Continues-persist sha256 (w.last_lsn + 1)
        (link sha256 sign gap_marker envelope signed hash w.last_lsn r)
        (link sha256 sign gap_marker envelope signed s.0.content_hash (w.last_lsn + 1) next)
        s.0.content_hash (waiting_none w) refl refl

  drain_level :
      (signed : Bool) (w : WormSink) (lines : Option Lines) (hash : List ℕ) (next : ℕ)
      (xs : List (ℕ × Record))
      → (signed ≡ true → next ≡ w.last_lsn + 1)
      → AllAudit xs
      → w.last_lsn + length xs + 1 < 2 ^ 64
      → ((r : Record) → Continues (link sha256 sign gap_marker envelope signed hash w.last_lsn r) w)
      → let c =
          drain_records sha256 sign gap_marker envelope signed
            (all_taken xs)
            (level_with w lines hash next) in
        (c.1 ≡ processed)
        × (contents c.0.worm
            ≡ contents w
              ++ envelopes sha256 sign gap_marker envelope
                  (transcript sha256 sign gap_marker envelope signed hash w.last_lsn xs))
        × (c.0.prev_lsn ≡ w.last_lsn + length xs)
  unfolding drain_records all_taken transcript envelopes level_with persist
  drain_level signed w lines hash next [] k a n c =
      (refl, sym (append-nil (contents w)), omega arith)
  drain_level signed w lines hash next (x ∷ xs) k (one_more a as') n c =
      let s = stamp sha256 sign gap_marker envelope signed hash w.last_lsn x.1 in
      let p = link sha256 sign gap_marker envelope signed hash w.last_lsn x.1 in
      let e =
        process_level sha256 sign gap_marker envelope signed x.0 w lines hash next x.1 k a
          (omega arith) (c x.1) in
      let w' = persist sha256 (w.last_lsn + 1) p (waiting_none w) in
      let rest =
        drain_level signed w' (append_sidecar s lines) s.0.content_hash
          (if signed then (next + 1) % 2 ^ 64 else next) xs
          (next_number signed next w.last_lsn k (omega arith)) as' (omega arith)
          (λ r. Continues-link signed hash w x.1 r) in
      let q =
        ap
          (unless_failed
            (λ c. drain_records sha256 sign gap_marker envelope signed (all_taken xs) c))
          e in
      (
        ap (λ z. z.1) q ∙ rest.0,
        ap (λ z. contents z.0.worm) q
            ∙ rest.1
            ∙ ap
                (λ z.
                  z
                  ++ envelopes sha256 sign gap_marker envelope (
                      transcript sha256 sign gap_marker envelope signed s.0.content_hash
                        (w.last_lsn + 1) xs))
                (contents-persist sha256 (w.last_lsn + 1) p (waiting_none w) refl)
            ∙ append_assoc (contents w) (envelope s.0 s.1) _,
        ap (λ z. z.0.prev_lsn) q ∙ rest.2 ∙ omega arith,
      )

-- The consumer writes every record once, in order, and each is chained to the one before. It starts
-- with no record processed, a WORM sink that is open and in which nothing was written or waits, and
-- a signature engine whose counter is at one if records are signed; the records are all audit
-- records, they are fewer than 2^64 less two, and the security sink and the sidecar, if there is
-- one, take them. Then none fails, the file and its buffer hold what they held and the envelopes of
-- the records in turn, where each record is numbered one above the last and signed, if records are
-- signed, over its number, its digest and the hash of the digest and the number of the record
-- before; and the last number is how many records there were.
pub drain_records-transcript :
    (sha256 : List ℕ → List ℕ) (sign : List ℕ → List ℕ) (gap_marker : ℕ → ℕ → List ℕ)
    (envelope : Record → Option (List ℕ) → List ℕ) (signed : Bool) (w : WormSink)
    (lines : Option Lines) (hash : List ℕ) (xs : List (ℕ × Record))
    → w.last_lsn ≡ 0
    → AllAudit xs
    → length xs + 1 < 2 ^ 64
    → let c =
        drain_records sha256 sign gap_marker envelope signed
          (all_taken xs)
          (level_with w lines hash 1) in
      (c.1 ≡ processed)
      × (contents c.0.worm
          ≡ contents w
            ++ envelopes sha256 sign gap_marker envelope
                (transcript sha256 sign gap_marker envelope signed hash 0 xs))
      × (c.0.prev_lsn ≡ length xs)
unfolding Continues
drain_records-transcript sha256 sign gap_marker envelope signed w lines hash xs z a n =
    let none_before : ltb 0 w.last_lsn ≡ false = ground arith in
    let (e, f, g) =
      drain_level sha256 sign gap_marker envelope signed w lines hash 1 xs (λ h. omega arith) a
        (omega arith) (λ r. rw none_before refl) in
    (
      e,
      f
          ∙ ap
              (λ l.
                contents w
                ++ envelopes sha256 sign gap_marker envelope
                    (transcript sha256 sign gap_marker envelope signed hash l xs))
              z,
      g ∙ omega arith,
    )
