-- ===== src/Util/Hex/Tests.antt =====
-- Runs and witnesses for hexadecimal text.
use do_logger.Prelude.{ℕ, ◌%◌, ◌≡◌, refl, ◌⊎◌, List, [], ◌∷◌, arith, ok, err, length}
use do_logger.Util.Hex.{decode, encode, encode_upper, odd_length}
use do_logger.Util.Hex.RoundTrip.{Decodes, decode-Decodes, decode-encode, first_invalid}

-- "Hi", with a code point for each character.
abbrev hi : List ℕ
hi = 72 ∷ 105 ∷ []

encode-hi : encode hi ≡ b'4' ∷ b'8' ∷ b'6' ∷ b'9' ∷ []
unfolding encode
encode-hi = refl

decode-encode_example : (decode (encode hi) ≡ ok hi) × (decode (encode_upper hi) ≡ ok hi)
decode-encode_example = decode-encode hi (omega arith)

-- "0g": the second character is no digit.
abbrev bad : List ℕ
bad = b'0' ∷ b'g' ∷ []

decode-Decodes_example :
    ((length bad % 2 ≡ 1) × (decode bad ≡ err odd_length))
    ⊎ ((length bad % 2 ≡ 0) × Decodes bad (first_invalid 0 bad) (decode bad))
decode-Decodes_example = decode-Decodes bad
