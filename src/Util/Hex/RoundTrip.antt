-- ===== src/Util/Hex/RoundTrip.antt =====
-- Decoding inverts encoding, and fails at the first character that is no digit.
use do_logger.Util.Hex.{
  FromHexError, decode, decode_from, encode, encode_to_iter, encode_upper, lower_digit, upper_digit,
  val, invalid_hex_character, join_byte, odd_length,
}
use do_logger.Prelude.{
  ℕ, ◌+◌, ◌*◌, ◌/◌, ◌%◌, ◌<◌, ◌≡◌, refl, ◌⊎◌, List, [], ◌∷◌, arith, ok, length, ◌-◌, Bool, true,
  ◌&&◌, ◌||◌, Option, none, some, leb, if◌then◌else◌, Result, err, ap, inl, inr, ◌==◌, Bool-cases,
  subst,
}

-- Every number of the list is a byte.
abbrev pub Bytes : List ℕ → Type 0
Bytes [] = Unit {0}
Bytes (b ∷ bs) = (b < 256) × Bytes bs

val-lower_digit : (n i : ℕ) → n < 16 → val (lower_digit n) i ≡ ok n
unfolding val lower_digit
val-lower_digit n i h = ground arith

val-upper_digit : (n i : ℕ) → n < 16 → val (upper_digit n) i ≡ ok n
unfolding val upper_digit
val-upper_digit n i h = ground arith

decode-encode_from :
    (table : ℕ → ℕ)
    → ((n i : ℕ) → n < 16 → val (table n) i ≡ ok n)
    → (bs : List ℕ) (i : ℕ) → Bytes bs
    → decode_from i (encode_to_iter table bs) ≡ ok bs
unfolding decode_from encode_to_iter
decode-encode_from table v [] i h = refl
decode-encode_from table v (b ∷ bs) i h =
    ground (arith, v (b / 16) i, v (b % 16) (i + 1), decode-encode_from table v bs (i + 2) h.1)

length-encode_to_iter :
    (table : ℕ → ℕ) (bs : List ℕ) → length (encode_to_iter table bs) ≡ length bs * 2
unfolding encode_to_iter
length-encode_to_iter table [] = refl
length-encode_to_iter table (b ∷ bs) = omega (arith, length-encode_to_iter table bs)

-- Decoding gives back the bytes that were encoded, in lower or in upper case.
pub decode-encode :
    (bs : List ℕ) → Bytes bs → (decode (encode bs) ≡ ok bs) × (decode (encode_upper bs) ≡ ok bs)
unfolding decode encode encode_upper
decode-encode bs h = (
  ground (
    arith,
    length-encode_to_iter lower_digit bs,
    decode-encode_from lower_digit val-lower_digit bs 0 h,
  ),
  ground (
    arith,
    length-encode_to_iter upper_digit bs,
    decode-encode_from upper_digit val-upper_digit bs 0 h,
  ),
)

pub is_digit : ℕ → Bool
is_digit c = (leb b'0' c && leb c b'9') || (leb b'a' c && leb c b'f') || (leb b'A' c && leb c b'F')

-- The first character of a text that is no digit, with its index counted from `i`.
pub first_invalid : ℕ → List ℕ → Option (ℕ × ℕ)
unfolding is_digit
first_invalid i [] = none
first_invalid i (c ∷ cs) =
    let later = first_invalid (i + 1) cs in if is_digit c then later else some (c, i)

digit_value : ℕ → ℕ
digit_value c = if leb c b'9' then c - b'0' else if leb c b'F' then c - b'A' + 10 else c - b'a' + 10

val_lem :
    (c i : ℕ)
    → val c i ≡ (if is_digit c then ok (digit_value c) else err (invalid_hex_character c i))
unfolding val is_digit digit_value
val_lem c i = ground arith

-- What decoding makes of a text of even length.
abbrev pub Decodes : List ℕ → Option (ℕ × ℕ) → Result FromHexError (List ℕ) → Type 0
Decodes hex none r = (bs : List ℕ) × (r ≡ ok bs) × (length bs * 2 ≡ length hex)
Decodes hex (some (c, i)) r = r ≡ err (invalid_hex_character c i)

first_invalid_digits :
    (c d i : ℕ) (rest : List ℕ)
    → is_digit c ≡ true
    → is_digit d ≡ true
    → first_invalid i (c ∷ d ∷ rest) ≡ first_invalid (i + 2) rest
unfolding first_invalid
first_invalid_digits c d i rest h k = rw (h, k) (ap (λ j. first_invalid j rest) (omega arith))

join_byte-Decodes :
    (c d hi lo : ℕ) (rest : List ℕ) (o : Option (ℕ × ℕ)) (r : Result FromHexError (List ℕ))
    → Decodes rest o r
    → Decodes (c ∷ d ∷ rest) o (join_byte (ok hi) (ok lo) r)
unfolding join_byte
join_byte-Decodes c d hi lo rest none r (bs, e, l) = ((hi * 16 + lo) ∷ bs, rw e, omega arith)
join_byte-Decodes c d hi lo rest (some (x, i)) r e = rw e

decode_from-Decodes :
    (hex : List ℕ) (i : ℕ)
    → length hex % 2 ≡ 0
    → Decodes hex (first_invalid i hex) (decode_from i hex)
unfolding first_invalid decode_from join_byte
decode_from-Decodes [] i h = ([], refl, refl)
decode_from-Decodes (c ∷ []) i h = absurd (omega arith)
decode_from-Decodes (c ∷ d ∷ rest) i h = elim (Bool-cases (is_digit c)) [
  | inr bad ↦ rw (val_lem c i, bad) refl
  | inl hi ↦ elim (Bool-cases (is_digit d)) [
    | inr bad ↦ rw (val_lem c i, val_lem d (i + 1), hi, bad) refl
    | inl lo ↦
        rw (val_lem c i, val_lem d (i + 1), hi, lo)
          (join_byte-Decodes c d (digit_value c) (digit_value d) rest
            (first_invalid (i + 1 + 1) rest) (decode_from (i + 2) rest)
            (subst (λ j. Decodes rest (first_invalid j rest) (decode_from (i + 2) rest))
              (omega arith) (decode_from-Decodes rest (i + 2) (omega arith))))
  ]
]

-- A text of odd length is refused as such. One of even length decodes to half as many bytes exactly
-- if each character is a digit, and else to the error that names the first one that is not, with
-- its index.
pub decode-Decodes :
    (hex : List ℕ)
    → ((length hex % 2 ≡ 1) × (decode hex ≡ err odd_length))
      ⊎ ((length hex % 2 ≡ 0) × Decodes hex (first_invalid 0 hex) (decode hex))
unfolding decode
decode-Decodes hex = elim (Bool-cases (length hex % 2 == 0)) [
  | inl even ↦ inr (ground arith, rw even (decode_from-Decodes hex 0 (ground arith)))
  | inr odd ↦ inl (ground arith, rw odd)
]
