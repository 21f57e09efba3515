-- ===== src/Buffer/EmergencyBuffer/Drain.antt =====
-- `drain_all` and `extract_record_id` of core/src/buffer/emergency_buffer.rs. The order in which a
-- hash set gives up its elements is the parameter `evict`.
use do_logger.Prelude.{
  ℕ, zero, suc, ◌+◌, ◌-◌, Bool, false, not, ◌||◌, Option, none, some, List, [], ◌∷◌, ◌++◌, ltb,
  ◌==◌, if◌then◌else◌, length, take, drop,
}
use do_logger.Prelude.Bytes.{from_le}
use do_logger.Prelude.Words.{wrap_add64}
use do_logger.Record.Tags.{name_eq}
use do_logger.Buffer.EmergencyBuffer.{EmergencyBuffer, dlog, SpillFile}

unfoldable pub extract_record_id : List ℕ → Option ℕ
extract_record_id bytes =
    if ltb (length bytes) 20
    then none
    else if not (name_eq (take 4 bytes) dlog)
    then none
    else some (from_le (take 8 (drop 12 bytes)))

-- A frame of the file, or the end of the reading with what is left to read then.
pub data ReadFrame : Type 0 where
  frame : (payload rest : List ℕ) → ReadFrame
  stop : (left : List ℕ) → ReadFrame

unfoldable pub read_frame : List ℕ → ReadFrame
read_frame bytes =
    let size = from_le (take 8 bytes) in
    if ltb (length bytes) 8
    then stop []
    else if size == 0 || ltb 1048576 size
    then stop (drop 8 bytes)
    else if ltb (length bytes) (8 + size)
    then stop []
    else frame (take size (drop 8 bytes)) (drop (8 + size) bytes)

unfoldable pub is_seen : ℕ → List ℕ → Bool
is_seen i [] = false
is_seen i (x ∷ xs) = x == i || is_seen i xs

-- What a run of `drain_all` hands to its callback, the ids then, and the bytes not read.
pub record Drained : Type 0 where
  pub out : List (List ℕ)
  pub seen : List ℕ
  pub left : List ℕ

unfoldable pub remember : (List ℕ → List ℕ) → List ℕ → List ℕ → Option (List ℕ)
remember evict seen plaintext = elim (extract_record_id plaintext) [
  | none ↦ some seen
  | some i ↦
      if is_seen i seen
      then none
      else some (if ltb 1000000 (length (i ∷ seen)) then evict (i ∷ seen) else i ∷ seen)
]

module _ {Key : Type 0} (decrypt : Key → List ℕ → List ℕ → Option (List ℕ))
    (cipher : Option Key) where
  unfoldable pub plaintext_of : List ℕ → Option (List ℕ)
  plaintext_of [] = some []
  plaintext_of (flag ∷ sealed) =
      if not (flag == 255)
      then some (flag ∷ sealed)
      else if ltb (length (flag ∷ sealed)) 29
      then none
      else elim cipher [ none ↦ none | some key ↦ decrypt key (take 12 sealed) (drop 12 sealed) ]

module _ {Key : Type 0} (decrypt : Key → List ℕ → List ℕ → Option (List ℕ))
    (evict : List ℕ → List ℕ) (cipher : Option Key) where
  -- The identifiers after a frame, and what it hands to the callback.
  unfoldable pub accept_payload : List ℕ → List ℕ → List ℕ × List (List ℕ)
  accept_payload seen payload = elim (plaintext_of decrypt cipher payload) [
    | none ↦ (seen, [])
    | some plaintext ↦ elim (remember evict seen plaintext) [
      | none ↦ (seen, [])
      | some seen' ↦ (seen', plaintext ∷ [])
    ]
  ]

  unfoldable pub drain_loop : ℕ → List ℕ → List ℕ → Drained
  drain_loop zero seen bytes = record { out = []; seen = seen; left = bytes }
  drain_loop (suc n) seen bytes = elim (read_frame bytes) [
    | stop left ↦ record { out = []; seen = seen; left = left }
    | frame payload rest ↦
        let a = accept_payload seen payload in
        let d = drain_loop n a.0 rest in record d { out = a.1 ++ d.out }
  ]

-- The buffer after it, and the records it hands to its callback.
module _ {Key : Type 0} (decrypt : Key → List ℕ → List ℕ → Option (List ℕ))
    (evict : List ℕ → List ℕ) where
  unfoldable pub drain_file :
      Option SpillFile → EmergencyBuffer Key → EmergencyBuffer Key × List (List ℕ)
  drain_file none b = (b, [])
  drain_file (some f) b =
      let d = drain_loop decrypt evict b.cipher (length f.bytes) b.seen_record_ids f.bytes in
      (
        record b {
          file = some (record { bytes = f.bytes; position = length f.bytes - length d.left });
          seen_record_ids = d.seen;
          total_recovered = wrap_add64 b.total_recovered (length d.out);
        },
        d.out,
      )

  unfoldable pub drain_all : EmergencyBuffer Key → EmergencyBuffer Key × List (List ℕ)
  drain_all b = drain_file b.file b
