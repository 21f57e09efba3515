-- ===== src/Record/Message/Payload.antt =====
-- What a payload gives back of the bytes that it was set to.
use mathlib.Core.Option
use do_logger.Prelude.{
  ℕ, zero, suc, ◌-◌, ◌≤◌, ◌≡◌, refl, ap, inl, inr, not, ◌&&◌, List, [], ◌∷◌, ◌++◌, arith, leb, ◌==◌,
  if◌then◌else◌, Bool-cases, length, set, take, drop, replicate, ◌⊎◌, Option, none, some, ◌<◌, ◌∙◌,
  length-append, get_or, length-replicate, true,
}
use do_logger.Prelude.Bytes.{take-append}
use do_logger.Record.Message.{
  MessagePayloadKind, inline_max, is_binary, RecordString, as_bytes, kind, position_zero,
  set_with_kind, unwrap_or, binary, explicit_decoded_text, utf8,
}

pub until_zero : List ℕ → List ℕ
until_zero [] = []
until_zero (b ∷ bs) = if b == 0 then [] else b ∷ until_zero bs

-- Text that fits the buffer is read up to its first NUL byte; everything else is read whole.
pub visible : List ℕ → MessagePayloadKind → List ℕ
unfolding until_zero is_binary
visible value k =
    if leb (length value) inline_max && not (is_binary k) then until_zero value else value

abbrev zeros : ℕ → List ℕ
zeros n = replicate n 0

unwrap_or-map-suc :
    (o : Option ℕ) (d : ℕ) → unwrap_or (Option.map suc o) (suc d) ≡ suc (unwrap_or o d)
unwrap_or-map-suc none d = refl
unwrap_or-map-suc (some n) d = refl

take-zeros : (m n : ℕ) → take (unwrap_or (position_zero (take m (zeros n))) m) (zeros n) ≡ []
unfolding position_zero
take-zeros zero n = refl
take-zeros (suc m) zero = refl
take-zeros (suc m) (suc n) = refl

-- A buffer of some bytes and then zeros, read up to a bound that the bytes do not pass.
take-position :
    (bound n : ℕ) (v : List ℕ)
    → length v ≤ bound
    → take (unwrap_or (position_zero (take bound (v ++ zeros n))) bound) (v ++ zeros n)
      ≡ until_zero v
unfolding position_zero until_zero
take-position bound n [] h = take-zeros bound n
take-position zero n (b ∷ v) h = absurd (omega arith)
take-position (suc m) n (b ∷ v) h = elim (Bool-cases (b == 0)) [
  | inl e ↦ rw e refl
  | inr e ↦
      rw (e, unwrap_or-map-suc (position_zero (take m (v ++ zeros n))) m)
        (ap (λ l. b ∷ l) (take-position m n v (omega arith)))
]

drop-replicate : (k n : ℕ) → drop k (zeros n) ≡ zeros (n - k)
drop-replicate zero n = ap zeros (omega arith)
drop-replicate (suc k) zero = let e : 0 ≡ 0 - suc k = omega arith in ap zeros e
drop-replicate (suc k) (suc n) = drop-replicate k n ∙ ap zeros (omega arith)

set_zero : (v : List ℕ) (n : ℕ) → set (v ++ zeros n) (length v) 0 ≡ v ++ zeros n
set_zero [] zero = refl
set_zero [] (suc n) = refl
set_zero (b ∷ v) n = ap (λ l. b ∷ l) (set_zero v n)

get_or-set : (l : List ℕ) (i v : ℕ) → i < length l → get_or (set l i v) i 0 ≡ v
get_or-set [] i v h = absurd (omega arith)
get_or-set (x ∷ l) zero v h = refl
get_or-set (x ∷ l) (suc i) v h = get_or-set l i v (omega arith)

take-set : (l : List ℕ) (k i v : ℕ) → k ≤ i → take k (set l i v) ≡ take k l
take-set l zero i v h = refl
take-set [] (suc k) i v h = refl
take-set (x ∷ l) (suc k) zero v h = absurd (omega arith)
take-set (x ∷ l) (suc k) (suc i) v h = ap (λ m. x ∷ m) (take-set l k i v (omega arith))

abbrev copied : List ℕ → List ℕ
copied v = v ++ zeros (95 - length v)

-- The buffer that `set_with_kind` leaves for text, and for binary bytes.
text_buffer : (v : List ℕ) → set (v ++ drop (length v) (zeros 95)) (length v) 0 ≡ copied v
text_buffer v =
    ap (λ l. set (v ++ l) (length v) 0) (drop-replicate (length v) 95) ∙ set_zero v (95 - length v)

abbrev inline : List ℕ → ℕ → RecordString
inline b s = record { buffer = b; sentinel = s; heap = [] }

text_bytes :
    (v b : List ℕ)
    → b ≡ copied v
    → length v ≤ 94
    → take (unwrap_or (position_zero (take 94 b)) 94) b ≡ until_zero v
text_bytes v b e h = rw e (take-position 94 (95 - length v) v h)

binary_bytes :
    (v : List ℕ)
    → length v ≤ 94
    → let b = set (v ++ drop (length v) (zeros 95)) 94 (length v) in take (get_or b 94 0) b ≡ v
binary_bytes v h = rw (drop-replicate (length v) 95) (
    rw
      (get_or-set (copied v) 94 (length v) (
        omega (
          arith,
          length-append v (zeros (95 - length v)),
          length-replicate {A = ℕ} (95 - length v) 0,
        )))
      (take-set (copied v) (length v) 94 (length v) h ∙ take-append v (zeros (95 - length v))))

module _ (b : List ℕ) where
  read_utf8 : as_bytes (inline b 0x00) ≡ take (unwrap_or (position_zero (take 94 b)) 94) b
  unfolding as_bytes
  read_utf8 = refl

  read_decoded : as_bytes (inline b 0xfc) ≡ take (unwrap_or (position_zero (take 94 b)) 94) b
  unfolding as_bytes
  read_decoded = refl

  read_binary : as_bytes (inline b 0xfe) ≡ take (get_or b 94 0) b
  unfolding as_bytes
  read_binary = refl

  read_heap :
      (s : ℕ)
      → (s ≡ 0xff) ⊎ (s ≡ 0xfd) ⊎ (s ≡ 0xfb)
      → as_bytes (record { buffer = zeros 95; sentinel = s; heap = b }) ≡ b
  unfolding as_bytes
  read_heap s e = ground arith

-- A payload set to bytes of any kind has that kind, and gives back all of the bytes but in one
-- case: text of at most 94 bytes is given back up to its first NUL byte.
pub as_bytes-set_with_kind :
    (s : RecordString) (v : List ℕ) (k : MessagePayloadKind)
    → (kind (set_with_kind s v k) ≡ k) × (as_bytes (set_with_kind s v k) ≡ visible v k)
unfolding set_with_kind visible kind
as_bytes-set_with_kind s v utf8 = elim (Bool-cases (leb (length v) 94)) [
  | inl e ↦ rw e (refl, read_utf8 _ ∙ text_bytes v _ (text_buffer v) (ground arith))
  | inr e ↦ rw e (refl, read_heap v 0xff (inl refl))
]
as_bytes-set_with_kind s v binary = elim (Bool-cases (leb (length v) 94)) [
  | inl e ↦ rw e (refl, read_binary _ ∙ binary_bytes v (ground arith))
  | inr e ↦ rw e (refl, read_heap v 0xfd (inr (inl refl)))
]
as_bytes-set_with_kind s v explicit_decoded_text = elim (Bool-cases (leb (length v) 94)) [
  | inl e ↦ rw e (refl, read_decoded _ ∙ text_bytes v _ (text_buffer v) (ground arith))
  | inr e ↦ rw e (refl, read_heap v 0xfb (inr (inr refl)))
]

until_zero-until_zero : (v : List ℕ) → until_zero (until_zero v) ≡ until_zero v
unfolding until_zero
until_zero-until_zero [] = refl
until_zero-until_zero (b ∷ v) = elim (Bool-cases (b == 0)) [
  | inl e ↦ rw (e, until_zero) refl
  | inr e ↦ rw (e, until_zero, e, until_zero-until_zero v) refl
]

length-until_zero : (v : List ℕ) → length (until_zero v) ≤ length v
unfolding until_zero
length-until_zero [] = omega arith
length-until_zero (b ∷ v) = ground (arith, length-until_zero v)

pub visible-visible : (v : List ℕ) (k : MessagePayloadKind) → visible (visible v k) k ≡ visible v k
unfolding visible
visible-visible v k = elim (Bool-cases (leb (length v) inline_max && not (is_binary k))) [
  | inl e ↦
      let g : (leb (length (until_zero v)) inline_max && not (is_binary k)) ≡ true =
        ground (arith, length-until_zero v) in
      rw (e, g) (until_zero-until_zero v)
  | inr e ↦ rw (e, e) refl
]
