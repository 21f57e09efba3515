-- ===== src/Sif/Decode/Parts.antt =====
-- The fixed bytes of an encoded record are read back.
use do_logger.Prelude.{
  ok, ℕ, ◌+◌, ◌≤◌, ◌<◌, ◌≡◌, refl, ap, ◌∙◌, List, ◌++◌, append_assoc, arith, length, drop,
}
use do_logger.Prelude.Bytes.{le, from_le, drop-drop}
use do_logger.Record.Level.{as_u8}
use do_logger.Record.Fields.{Record, id_hi, id_lo}
use do_logger.Record.Fields.Canonical.{InRange, from_u8-as_u8}
use do_logger.Sif.Frame.{fixed_bytes}
use do_logger.Sif.Decode.{Fixed, read_fixed, level_of}
use do_logger.Sif.Decode.Reads.{read_any, read_small, read_array-on, get_byte-on, drop-on}

-- What is read of a record with a message of so many bytes.
unfoldable pub fixed_of : Record → ℕ → Fixed
fixed_of r message_len = record {
  id_hi = from_le (le 8 (id_hi r));
  id_lo = from_le (le 8 (id_lo r));
  timestamp = r.timestamp;
  level = r.level;
  thread_id = r.thread_id;
  process_id = r.process_id;
  lsn = r.lsn;
  flags = r.flags;
  pool_index = r.pool_index;
  content_hash = r.content_hash;
  message_len = message_len;
}

module _ (r : Record) (message tail l : List ℕ) (a : InRange r) (hash : length r.content_hash ≡ 32)
    (small : length message < 4294967296) (e : drop 32 l ≡ fixed_bytes r message ++ tail)
    (b : 122 ≤ length l) where
  at : (k : ℕ) → drop (32 + k) l ≡ drop k (fixed_bytes r message ++ tail)
  at k = drop-drop 32 k l ∙ ap (drop k) e

  at_hash : drop 86 l ≡ r.content_hash ++ (le 4 (length message) ++ tail)
  unfolding fixed_bytes
  at_hash = at 54 ∙ append_assoc r.content_hash (le 4 (length message)) tail

  at_length : drop 118 l ≡ le 4 (length message) ++ tail
  at_length = drop-on 86 32 l r.content_hash _ at_hash hash

  pub at_tail : drop 122 l ≡ tail
  at_tail = drop-on 118 4 l (le 4 (length message)) tail at_length refl

  level-read : level_of (as_u8 r.level) ≡ ok r.level
  unfolding level_of
  level-read = rw (from_u8-as_u8 r.level, level_of) refl

  pub read_fixed-encoded : read_fixed l ≡ ok (fixed_of r (length message))
  unfolding read_fixed fixed_of fixed_bytes
  read_fixed-encoded =
      let e₁ = read_any 8 (id_hi r) 32 l _ (at 0) (omega arith) in
      let e₂ = read_any 8 (id_lo r) 40 l _ (at 8) (omega arith) in
      let e₃ = read_small 8 r.timestamp 48 l _ (at 16) (omega arith) a.timestamp in
      let e₄ = get_byte-on 56 (as_u8 r.level) l _ (at 24) in
      let e₅ = read_small 4 r.thread_id 64 l _ (at 32) (omega arith) a.thread_id in
      let e₆ = read_small 4 r.process_id 68 l _ (at 36) (omega arith) a.process_id in
      let e₇ = read_small 8 r.lsn 72 l _ (at 40) (omega arith) a.lsn in
      let e₈ = read_small 2 r.flags 80 l _ (at 48) (omega arith) a.flags in
      let e₉ = read_small 4 r.pool_index 82 l _ (at 50) (omega arith) a.pool_index in
      let h = read_array-on 32 86 l r.content_hash _ at_hash hash (omega arith) in
      let m = read_small 4 (length message) 118 l tail at_length (omega arith) small in
      rw (e₁, e₂, e₃, e₄, level-read, e₅, e₆, e₇, e₈, e₉, h, m) refl
