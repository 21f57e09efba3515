-- ===== src/Sink/Worm/Order.antt =====
-- Records that come in and out of the order of their numbers.
use do_logger.Prelude.{
  ℕ, ◌+◌, ◌-◌, ◌≡◌, refl, sym, inl, inr, true, false, not, ◌&&◌, ◌||◌, none, some, List, [], ◌∷◌,
  ◌++◌, append-nil, append_assoc, arith, ltb, ◌==◌, Bool-cases, length, ap, ◌∙◌, ◌≤◌, ◌<◌, Bool,
}
use do_logger.Record.Tags.{name_eq}
use do_logger.Sink.Worm.{
  PendingRecord, WormSink, Writer, accepted, check_reorder_window, contents, flush_entries,
  flush_reorder_buffer, fsync, sync, WormDurability, os_cache, media, media_with_fua,
  insert_pending, persist, write_all, write_raw, write_worm_record_internal, derive_chain_link,
  next_hash,
}

-- An open sink in which no record waits.
abbrev pub waiting_none : WormSink → WormSink
waiting_none s = record s { is_open = true; reorder_buffer = []; reorder_start = none }

abbrev pub waiting_one : ℕ → PendingRecord → ℕ → WormSink → WormSink
waiting_one lsn r t s = record s {
  is_open = true;
  reorder_buffer = (lsn, r) ∷ [];
  reorder_start = some t;
}

pub name_eq_self : (xs : List ℕ) → name_eq xs xs ≡ true
unfolding name_eq
name_eq_self [] = refl
name_eq_self (x ∷ xs) = rw (name_eq_self xs) (ground arith)

-- A record continues the chain: it is the first, or names the hash of the last.
unfoldable pub Continues : PendingRecord → WormSink → Type 0
Continues r s = (ltb 0 s.last_lsn && not (name_eq r.prev_hash s.last_hash)) ≡ false

pub held_or_written :
    (bytes : List ℕ) (w : Writer)
    → (write_all bytes w).on_file ++ (write_all bytes w).held ≡ (w.on_file ++ w.held) ++ bytes
unfolding write_all
held_or_written bytes w =
    elim (Bool-cases
      (not (ltb w.capacity (length w.held + length bytes)) && ltb (length bytes) w.capacity)) [
        | inl a ↦ rw a (sym (append_assoc w.on_file w.held bytes))
        | inr a ↦ elim (Bool-cases (ltb (length bytes) w.capacity)) [
          | inl b ↦ rw (a, b) refl
          | inr b ↦ rw (a, b) (append-nil ((w.on_file ++ w.held) ++ bytes))
        ]
      ]

module _ (sha256 : List ℕ → List ℕ) where
  pub contents-persist :
      (lsn : ℕ) (r : PendingRecord) (s : WormSink)
      → s.is_open ≡ true
      → contents (persist sha256 lsn r s) ≡ contents s ++ r.data_bytes
  unfolding persist write_raw
  contents-persist lsn r s e =
      ap (λ o. contents (persist sha256 lsn r (record s { is_open = o }))) e
      ∙ held_or_written r.data_bytes s.writer

sync_at :
    (d : WormDurability) (s : WormSink)
    → sync (record s { durability = d }) ≡ record s { durability = d }
unfolding sync fsync
sync_at os_cache s = refl
sync_at media s = refl
sync_at media_with_fua s = refl

-- The file below the buffer is synced, and the buffer left as it is.
sync_same : (s : WormSink) → sync s ≡ s
sync_same s = sync_at s.durability s

module _ (sha256 : List ℕ → List ℕ) (gap_marker : ℕ → ℕ → List ℕ) where
  write_next :
      (now lsn : ℕ) (r : PendingRecord) (s : WormSink)
      → lsn ≡ s.last_lsn + 1
      → Continues r s
      → write_worm_record_internal sha256 gap_marker now lsn r (record s { is_open = true }) ≡ (
        persist sha256 lsn r (flush_reorder_buffer sha256 (record s { is_open = true })),
        accepted,
      )
  unfolding write_worm_record_internal Continues
  write_next now lsn r s h c =
      let e : (lsn == s.last_lsn + 1) ≡ true = ground arith in
      rw
        (
          e,
          c,
          sync_same
              (persist sha256 lsn r (flush_reorder_buffer sha256 (record s { is_open = true }))),
        )
        refl

  -- The next number is written at once.
  pub write_in_order :
      (now : ℕ) (r : PendingRecord) (s : WormSink)
      → Continues r s
      → write_worm_record_internal sha256 gap_marker now (s.last_lsn + 1) r (waiting_none s)
        ≡ (persist sha256 (s.last_lsn + 1) r (waiting_none s), accepted)
  unfolding flush_reorder_buffer flush_entries Continues
  write_in_order now r s c = write_next now (s.last_lsn + 1) r (waiting_none s) refl c

  -- A number after the next waits.
  pub write_early :
      (now : ℕ) (r : PendingRecord) (s : WormSink)
      → write_worm_record_internal sha256 gap_marker now (s.last_lsn + 2) r (waiting_none s)
        ≡ (waiting_one (s.last_lsn + 2) r now s, accepted)
  unfolding write_worm_record_internal check_reorder_window insert_pending
  write_early now r s =
      let e : (s.last_lsn + 2 == s.last_lsn + 1) ≡ false = ground arith in
      let g : ltb (s.last_lsn + 1) (s.last_lsn + 2) ≡ true = ground arith in
      let w : (s.window_ms == 0 || ltb (now - now) s.window_ms) ≡ true = ground arith in
      rw (e, g, w) refl

  pub goes_on_waiting :
      (t : ℕ) (early : PendingRecord) (s : WormSink)
      → flush_reorder_buffer sha256 (waiting_one (s.last_lsn + 2) early t s)
        ≡ waiting_one (s.last_lsn + 2) early t s
  unfolding flush_reorder_buffer flush_entries
  goes_on_waiting t early s =
      let g : ltb (s.last_lsn + 1) (s.last_lsn + 2) ≡ true = ground arith in
      rw (g, flush_entries) refl

  flush_writes :
      (lsn t : ℕ) (r : PendingRecord) (s : WormSink)
      → lsn ≡ s.last_lsn + 1
      → contents (flush_reorder_buffer sha256 (waiting_one lsn r t s)) ≡ contents s ++ r.data_bytes
  unfolding flush_reorder_buffer flush_entries
  flush_writes lsn t r s h =
      let g : ltb (s.last_lsn + 1) lsn ≡ false = ground arith in
      let e : (lsn == s.last_lsn + 1) ≡ true = ground arith in
      rw (g, flush_entries, e, flush_entries)
        (contents-persist sha256 lsn r (waiting_one lsn r t s) refl)

  flush_stays_open :
      (lsn t : ℕ) (r : PendingRecord) (s : WormSink)
      → lsn ≡ s.last_lsn + 1
      → (flush_reorder_buffer sha256 (waiting_one lsn r t s)).is_open ≡ true
  unfolding flush_reorder_buffer flush_entries persist write_raw
  flush_stays_open lsn t r s h =
      let g : ltb (s.last_lsn + 1) lsn ≡ false = ground arith in
      let e : (lsn == s.last_lsn + 1) ≡ true = ground arith in
      rw (g, flush_entries, e, flush_entries) refl

  -- One that waits for it goes on waiting.
  write_before_waiting :
      (now t : ℕ) (r early : PendingRecord) (s : WormSink)
      → Continues r s
      → write_worm_record_internal sha256 gap_marker now
          (s.last_lsn + 1)
          r
          (waiting_one (s.last_lsn + 2) early t s)
        ≡ (persist sha256 (s.last_lsn + 1) r (waiting_one (s.last_lsn + 2) early t s), accepted)
  unfolding Continues
  write_before_waiting now t r early s c =
      write_next now (s.last_lsn + 1) r (waiting_one (s.last_lsn + 2) early t s) refl c
      ∙ ap (λ f. (persist sha256 (s.last_lsn + 1) r f, accepted)) (goes_on_waiting t early s)

  write_again :
      (now lsn t : ℕ) (r : PendingRecord) (s : WormSink)
      → lsn ≡ s.last_lsn + 1
      → Continues r s
      → contents (write_worm_record_internal sha256 gap_marker now lsn r (waiting_one lsn r t s)).0
        ≡ (contents s ++ r.data_bytes) ++ r.data_bytes
  unfolding Continues
  write_again now lsn t r s h c =
      ap (λ z. contents z.0) (write_next now lsn r (waiting_one lsn r t s) h c)
      ∙ contents-persist sha256 lsn r (flush_reorder_buffer sha256 (waiting_one lsn r t s))
          (flush_stays_open lsn t r s h)
      ∙ ap (λ z. z ++ r.data_bytes) (flush_writes lsn t r s h)

pub one_fails : (a b : Bool) → b ≡ true → (a && not b) ≡ false
one_fails true b e = rw e refl
one_fails false b e = refl

-- A record that names the hash of the one before it continues the chain.
pub Continues-persist :
    (sha256 : List ℕ → List ℕ) (lsn : ℕ) (r after : PendingRecord) (hash : List ℕ) (s : WormSink)
    → r.content_hash ≡ some hash
    → after.prev_hash ≡ derive_chain_link sha256 hash lsn
    → Continues after (persist sha256 lsn r s)
unfolding Continues persist write_raw next_hash
Continues-persist sha256 lsn r after hash s h e =
    let q : after.prev_hash ≡ next_hash sha256 r.content_hash r.prev_hash lsn =
      e ∙ ap (λ c. next_hash sha256 c r.prev_hash lsn) (sym h) in
    one_fails (ltb 0 lsn)
      (name_eq after.prev_hash (next_hash sha256 r.content_hash r.prev_hash lsn))
      (ap (name_eq after.prev_hash) (sym q) ∙ name_eq_self after.prev_hash)

-- A record that came one too early is not written when the record before it is, and when it is sent
-- once more, it is written twice. The sink is open and no record waits, the two records continue
-- its chain, and the calls may come at any times, while no time passes within a call.
pub written_twice :
    (sha256 : List ℕ → List ℕ) (gap_marker : ℕ → ℕ → List ℕ) (t₁ t₂ t₃ : ℕ) (s : WormSink)
    (hash : List ℕ) (r early : PendingRecord)
    → Continues r s
    → r.content_hash ≡ some hash
    → early.prev_hash ≡ derive_chain_link sha256 hash (s.last_lsn + 1)
    → let write = write_worm_record_internal sha256 gap_marker in
      let s₁ = (write t₁ (s.last_lsn + 2) early (waiting_none s)).0 in
      let s₂ = (write t₂ (s.last_lsn + 1) r s₁).0 in
      let s₃ = (write t₃ (s.last_lsn + 2) early s₂).0 in
      (contents s₂ ≡ contents s ++ r.data_bytes)
      × (contents s₃ ≡ ((contents s ++ r.data_bytes) ++ early.data_bytes) ++ early.data_bytes)
unfolding persist
written_twice sha256 gap_marker t₁ t₂ t₃ s hash r early c h e =
    let write = write_worm_record_internal sha256 gap_marker in
    let p = persist sha256 (s.last_lsn + 1) r (waiting_one (s.last_lsn + 2) early t₁ s) in
    let e₁ = ap (λ z. z.0) (write_early sha256 gap_marker t₁ early s) in
    let e₂ : (write t₂ (s.last_lsn + 1) r (write t₁ (s.last_lsn + 2) early (waiting_none s)).0).0
        ≡ p =
      ap (λ z. (write t₂ (s.last_lsn + 1) r z).0) e₁
      ∙ ap (λ z. z.0) (write_before_waiting sha256 gap_marker t₂ t₁ r early s c) in
    let w = contents-persist sha256 (s.last_lsn + 1) r (waiting_none s) refl in
    let k = Continues-persist sha256 (s.last_lsn + 1) r early hash (waiting_none s) h e in
    (
      ap contents e₂ ∙ w,
      ap (λ z. contents (write t₃ (s.last_lsn + 2) early z).0) e₂
          ∙ write_again sha256 gap_marker t₃ (s.last_lsn + 2) t₁ early
              (persist sha256 (s.last_lsn + 1) r (waiting_none s)) (omega arith) k
          ∙ ap (λ z. (z ++ early.data_bytes) ++ early.data_bytes) w,
    )

-- A record that is accepted may be in no file yet, whatever the durability, as the bytes wait in
-- the buffer that `fsync` does not empty. The sink is open, no record waits, the record continues
-- the chain, and the buffer has room for it.
pub accepted_not_on_file :
    (sha256 : List ℕ → List ℕ) (gap_marker : ℕ → ℕ → List ℕ) (now : ℕ) (s : WormSink)
    (r : PendingRecord)
    → Continues r s
    → length s.writer.held + length r.data_bytes ≤ s.writer.capacity
    → length r.data_bytes < s.writer.capacity
    → let w =
        write_worm_record_internal sha256 gap_marker now (s.last_lsn + 1) r (waiting_none s) in
      (w.1 ≡ accepted) × (w.0.last_lsn ≡ s.last_lsn + 1) × (w.0.writer.on_file ≡ s.writer.on_file)
unfolding persist write_raw write_all
accepted_not_on_file sha256 gap_marker now s r c room fits =
    let e = write_in_order sha256 gap_marker now r s c in
    let a : ltb s.writer.capacity (length s.writer.held + length r.data_bytes) ≡ false =
      ground arith in
    let b : ltb (length r.data_bytes) s.writer.capacity ≡ true = ground arith in
    (ap (λ z. z.1) e, ap (λ z. z.0.last_lsn) e, ap (λ z. z.0.writer.on_file) e ∙ rw (a, b) refl)
