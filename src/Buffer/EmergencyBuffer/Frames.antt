-- ===== src/Buffer/EmergencyBuffer/Frames.antt =====
-- A spill file that is a sequence of frames of records, and what recovery reads from it.
use do_logger.Prelude.{
  ℕ, ◌+◌, ◌^◌, ◌≤◌, ◌<◌, ◌≡◌, ap, Bool, true, false, ◌&&◌, some, List, [], ◌∷◌, ◌++◌, ltb,
  if◌then◌else◌, length, refl, ◌∙◌, ◌||◌, Option, arith, ◌==◌, length-append, drop, inl, inr,
  Bool-cases,
}
use do_logger.Prelude.Bytes.{
  le, from_le, from_le-le, drop-append, drop-drop, drop-front, take-append, take-front,
}
use do_logger.Record.Tags.{name_eq}
use do_logger.Record.Fields.{Record, id_lo, id_hi}
use do_logger.Buffer.EmergencyBuffer.{record_to_bytes, is_audit_level, dlog}
use do_logger.Buffer.EmergencyBuffer.Drain.{
  is_seen, extract_record_id, frame, read_frame, stop, plaintext_of, accept_payload, remember,
}

module _ (is_utf8 : List ℕ → Bool) where
  -- How long a payload is: the flag, the nonce and the tag of the cipher come with an encrypted
  -- one.
  unfoldable pub spilled_size : Bool → Record → ℕ
  spilled_size encrypts r =
      let n = length (record_to_bytes is_utf8 r) in
      if encrypts && is_audit_level r.level then 29 + n else n

  -- The records before the first whose payload is over a mebibyte.
  unfoldable pub before_oversize : Bool → List Record → List Record
  before_oversize encrypts [] = []
  before_oversize encrypts (r ∷ rs) =
      if ltb 1048576 (spilled_size encrypts r) then [] else r ∷ before_oversize encrypts rs

-- The records without those whose low half of the identifier was seen or occurs earlier.
unfoldable pub first_of_each : List ℕ → List Record → List Record
first_of_each seen [] = []
first_of_each seen (r ∷ rs) = elim (is_seen (id_lo r) seen) [
  | true ↦ first_of_each seen rs
  | false ↦ r ∷ first_of_each (id_lo r ∷ seen) rs
]

header_id :
    (hi lo : ℕ) (rest : List ℕ)
    → lo < 2 ^ 64
    → extract_record_id (dlog ++ (le 8 hi ++ (le 8 lo ++ rest))) ≡ some lo
unfolding extract_record_id name_eq
header_id hi lo rest h =
    let g : ltb (length (dlog ++ (le 8 hi ++ (le 8 lo ++ rest)))) 20 ≡ false = ground arith in
    rw g (ap some (from_le-le 8 lo h))

pub extract_record_id-record_to_bytes :
    (is_utf8 : List ℕ → Bool) (r : Record)
    → id_lo r < 2 ^ 64
    → extract_record_id (record_to_bytes is_utf8 r) ≡ some (id_lo r)
unfolding record_to_bytes
extract_record_id-record_to_bytes is_utf8 r h = header_id (id_hi r) (id_lo r) _ h

-- What is read from a file that starts with a length and so many bytes.
read_frame-head :
    (size p rest : List ℕ)
    → length size ≡ 8
    → from_le size ≡ length p
    → read_frame (size ++ (p ++ rest))
      ≡ (if length p == 0 || ltb 1048576 (length p) then stop (p ++ rest) else frame p rest)
unfolding read_frame
read_frame-head size p rest h e =
    let a = length-append size (p ++ rest) in
    let b = length-append p rest in
    let g : ltb (length (size ++ (p ++ rest))) 8 ≡ false = ground arith in
    let k : ltb (length (size ++ (p ++ rest))) (8 + length p) ≡ false = ground arith in
    let d = drop-front 8 size (p ++ rest) h in
    let t = take-front 8 size (p ++ rest) h in
    let after : drop (8 + length p) (size ++ (p ++ rest)) ≡ rest =
      drop-drop 8 (length p) (size ++ (p ++ rest)) ∙ ap (drop (length p)) d ∙ drop-append p rest in
    rw (t, e, g, k, after, d, take-append p rest) refl

pub read_frame_end : read_frame [] ≡ stop []
unfolding read_frame
read_frame_end = refl

pub read_frame-frame :
    (p rest : List ℕ)
    → 0 < length p
    → length p ≤ 1048576
    → read_frame (le 8 (length p) ++ (p ++ rest)) ≡ frame p rest
read_frame-frame p rest h k =
    let e = from_le-le 8 (length p) (omega arith) in
    let g : (length p == 0 || ltb 1048576 (length p)) ≡ false = ground arith in
    read_frame-head (le 8 (length p)) p rest refl e
    ∙ ap (λ b. if b then stop (p ++ rest) else frame p rest) g

pub read_frame-oversize :
    (p rest : List ℕ)
    → 1048576 < length p
    → length p < 2 ^ 64
    → read_frame (le 8 (length p) ++ (p ++ rest)) ≡ stop (p ++ rest)
read_frame-oversize p rest h k =
    let e = from_le-le 8 (length p) k in
    let g : (length p == 0 || ltb 1048576 (length p)) ≡ true = ground arith in
    read_frame-head (le 8 (length p)) p rest refl e
    ∙ ap (λ b. if b then stop (p ++ rest) else frame p rest) g

-- The bytes of a file that holds the frames of such records in turn.
module _ {Key : Type 0} (decrypt : Key → List ℕ → List ℕ → Option (List ℕ))
    (is_utf8 : List ℕ → Bool) (encrypts : Bool) (cipher : Option Key) where
  pub data Frames : List Record → List ℕ → Type 0 where
    no_frames : Frames [] []
    one_frame :
        {rs : List Record} {rest : List ℕ} (r : Record) (p : List ℕ)
        → plaintext_of decrypt cipher p ≡ some (record_to_bytes is_utf8 r)
        → length p ≡ spilled_size is_utf8 encrypts r
        → Frames rs rest
        → Frames (r ∷ rs) (le 8 (length p) ++ (p ++ rest))

pub accept_payload-plaintext :
    {Key : Type 0} (decrypt : Key → List ℕ → List ℕ → Option (List ℕ)) (evict : List ℕ → List ℕ)
    (cipher : Option Key) (p plaintext seen : List ℕ) (i : ℕ)
    → plaintext_of decrypt cipher p ≡ some plaintext
    → extract_record_id plaintext ≡ some i
    → length seen < 1000000
    → accept_payload decrypt evict cipher seen p
      ≡ (if is_seen i seen then (seen, []) else (i ∷ seen, plaintext ∷ []))
unfolding accept_payload remember
accept_payload-plaintext decrypt evict cipher p plaintext seen i e f h =
    let g : ltb 1000000 (length (i ∷ seen)) ≡ false = ground arith in
    elim (Bool-cases (is_seen i seen)) [
      | inl c ↦ rw (e, accept_payload, f, remember, accept_payload, c) refl
      | inr c ↦ rw (e, accept_payload, f, remember, accept_payload, c, g) refl
    ]
