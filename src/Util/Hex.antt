-- ===== src/Util/Hex.antt =====
-- Hexadecimal encoding and decoding (core/src/util/hex.rs). Bytes and characters are numbers.
pub mod RoundTrip
mod Tests
use do_logger.Prelude.{
  ℕ, ◌+◌, ◌-◌, ◌*◌, ◌/◌, ◌%◌, ◌&&◌, List, [], ◌∷◌, ltb, leb, ◌==◌, if◌then◌else◌, Result, ok, err,
  length,
}

pub data FromHexError : Type 0 where
  invalid_hex_character : ℕ → ℕ → FromHexError
  odd_length invalid_string_length : FromHexError

-- The tables HEX_CHARS_LOWER and HEX_CHARS_UPPER at an index below 16.
pub lower_digit : ℕ → ℕ
lower_digit n = if ltb n 10 then b'0' + n else b'a' + (n - 10)

pub upper_digit : ℕ → ℕ
upper_digit n = if ltb n 10 then b'0' + n else b'A' + (n - 10)

-- `BytesToHexChars` collected: the high digit of each byte, then the low one.
pub encode_to_iter : (ℕ → ℕ) → List ℕ → List ℕ
encode_to_iter table [] = []
encode_to_iter table (byte ∷ bytes) =
    table (byte / 16) ∷ table (byte % 16) ∷ encode_to_iter table bytes

pub encode : List ℕ → List ℕ
unfolding encode_to_iter lower_digit
encode = encode_to_iter lower_digit

pub encode_upper : List ℕ → List ℕ
unfolding encode_to_iter upper_digit
encode_upper = encode_to_iter upper_digit

-- `val` of the character `c` at `index`.
pub val : ℕ → ℕ → Result FromHexError ℕ
val c index =
    if leb b'0' c && leb c b'9'
    then ok (c - b'0')
    else if leb b'a' c && leb c b'f'
    then ok (c - b'a' + 10)
    else if leb b'A' c && leb c b'F'
    then ok (c - b'A' + 10)
    else err (invalid_hex_character c index)

-- `(hi << 4) | lo`, after the two digits were read, then the bytes that follow.
pub join_byte :
    Result FromHexError ℕ
    → Result FromHexError ℕ
    → Result FromHexError (List ℕ)
    → Result FromHexError (List ℕ)
join_byte (err e) lo rest = err e
join_byte (ok hi) (err e) rest = err e
join_byte (ok hi) (ok lo) (err e) = err e
join_byte (ok hi) (ok lo) (ok bytes) = ok ((hi * 16 + lo) ∷ bytes)

-- The loop of `from_hex`, at index `i`; a single character at the end is not reached.
pub decode_from : ℕ → List ℕ → Result FromHexError (List ℕ)
unfolding val join_byte
decode_from i [] = ok []
decode_from i (c ∷ []) = ok []
decode_from i (c ∷ d ∷ rest) = join_byte (val c i) (val d (i + 1)) (decode_from (i + 2) rest)

pub decode : List ℕ → Result FromHexError (List ℕ)
unfolding decode_from
decode hex = if length hex % 2 == 0 then decode_from 0 hex else err odd_length

-- The slice forms, for an output of the given length: what they write.
pub encode_to_slice : List ℕ → ℕ → Result FromHexError (List ℕ)
unfolding encode
encode_to_slice input out_len =
    if length input * 2 == out_len then ok (encode input) else err invalid_string_length

pub decode_to_slice : List ℕ → ℕ → Result FromHexError (List ℕ)
unfolding decode_from
decode_to_slice hex out_len =
    if length hex % 2 == 0
    then if length hex / 2 == out_len then decode_from 0 hex else err invalid_string_length
    else err odd_length
