-- ===== src/Security/Crc32c/Chunks.antt =====
-- The loop over words of eight bytes computes what the loop over single bytes does.
use do_logger.Prelude.Words.{u32_mod}
use Prim.Native.Nat.{bit_and, bit_xor, digits, differ, bit_and-bitwise, bit_xor-bitwise}
use do_logger.Prelude.{
  ℕ, zero, suc, ◌+◌, ◌*◌, ◌/◌, ◌%◌, ◌≤◌, ◌≡◌, refl, ap, arith, ◌^◌, ◌<◌, min, sym, ◌∙◌, List, [],
  ◌∷◌,
}
use do_logger.Security.Crc32c.{
  table, lookup_step, bytes_loop, chunks_loop, complement, crc32c_software, crc32c_table_entry,
  from_le_bytes,
}

-- More fuel than the first number has no effect on a digit-wise operation.
module _ (out : ℕ → ℕ) (op : ℕ → ℕ → ℕ) where
  fuel_irrelevant :
      (a b more less : ℕ) → a ≤ more → a ≤ less → digits out op more a b ≡ digits out op less a b
  fuel_irrelevant zero b zero zero p q = refl
  fuel_irrelevant zero b zero (suc less) p q = refl
  fuel_irrelevant zero b (suc more) zero p q = refl
  fuel_irrelevant zero b (suc more) (suc less) p q = refl
  fuel_irrelevant (suc a) b zero less p q = absurd (omega arith)
  fuel_irrelevant (suc a) b (suc more) zero p q = absurd (omega arith)
  fuel_irrelevant (suc a) b (suc more) (suc less) p q =
      ap (λ d. d * 2 + op (suc a % 2) (b % 2))
        (fuel_irrelevant (suc a / 2) (b / 2) more less (omega arith) (omega arith))

digit_step :
    (out : ℕ → ℕ) (op : ℕ → ℕ → ℕ) (a b : ℕ)
    → digits out op (suc a) (suc a) b
      ≡ digits out op (suc a / 2) (suc a / 2) (b / 2) * 2 + op (suc a % 2) (b % 2)
digit_step out op a b =
    ap (λ d. d * 2 + op (suc a % 2) (b % 2))
      (fuel_irrelevant out op (suc a / 2) (b / 2) a (suc a / 2) (omega arith) (omega arith))

xor_step : (a b : ℕ) → bit_xor a b ≡ bit_xor (a / 2) (b / 2) * 2 + differ (a % 2) (b % 2)
xor_step zero b = simp bit_xor-bitwise (omega arith)
xor_step (suc a) b = simp bit_xor-bitwise (digit_step (λ d. d) differ a b)

and_step : (a b : ℕ) → bit_and a b ≡ bit_and (a / 2) (b / 2) * 2 + min (a % 2) (b % 2)
and_step zero b = simp bit_and-bitwise (omega arith)
and_step (suc a) b = simp bit_and-bitwise (digit_step (λ d. 0) min a b)

differ-lt : (a b : ℕ) → differ (a % 2) (b % 2) < 2
differ-lt a b = bits (a % 2) (b % 2) (omega arith) (omega arith)
  where
    bits : (x y : ℕ) → x < 2 → y < 2 → differ x y < 2
    bits zero y h k = k
    bits (suc zero) zero h k = omega arith
    bits (suc zero) (suc zero) h k = omega arith
    bits (suc zero) (suc (suc y)) h k = absurd (omega arith)
    bits (suc (suc x)) y h k = absurd (omega arith)

ones : ℕ → ℕ
ones zero = 0
ones (suc k) = 2 * ones k + 1

-- The lowest `k` digits are the same.
abbrev Agree : ℕ → ℕ → ℕ → Type 0
Agree zero x y = Unit {0}
Agree (suc k) x y = (x % 2 ≡ y % 2) × Agree k (x / 2) (y / 2)

and-zero : (a : ℕ) → bit_and a 0 ≡ 0
and-zero a = below a a (omega arith)
  where
    below : (n a : ℕ) → a ≤ n → bit_and a 0 ≡ 0
    below zero zero h = refl
    below zero (suc a) h = absurd (omega arith)
    below (suc n) zero h = refl
    below (suc n) (suc a) h = omega (arith, and_step (suc a) 0, below n (suc a / 2) (omega arith))

masked_step :
    (c x m : ℕ)
    → bit_and (bit_xor c x) (2 * m + 1)
      ≡ bit_and (bit_xor (c / 2) (x / 2)) m * 2 + differ (c % 2) (x % 2)
masked_step c x m = rw (and_step (bit_xor c x) (2 * m + 1), halves, odd, bit) refl
  where
    halves : bit_xor c x / 2 ≡ bit_xor (c / 2) (x / 2)
    halves = omega (arith, xor_step c x, differ-lt c x)

    odd : (2 * m + 1) / 2 ≡ m
    odd = omega arith

    bit : min (bit_xor c x % 2) ((2 * m + 1) % 2) ≡ differ (c % 2) (x % 2)
    bit = omega (arith, xor_step c x, differ-lt c x)

masked_eq :
    (k c x y : ℕ) → Agree k x y → bit_and (bit_xor c x) (ones k) ≡ bit_and (bit_xor c y) (ones k)
unfolding ones
masked_eq zero c x y h = and-zero (bit_xor c x) ∙ sym (and-zero (bit_xor c y))
masked_eq (suc k) c x y h =
    rw
      (
        masked_step c x (ones k),
        masked_step c y (ones k),
        masked_eq k (c / 2) (x / 2) (y / 2) h.1,
        h.0,
      )
      refl

-- A step reads the lowest byte of the value that it mixes in, and no more of it.
lookup_step-mod : (crc x b : ℕ) → x % 256 ≡ b → b < 256 → lookup_step crc x ≡ lookup_step crc b
unfolding lookup_step ones
lookup_step-mod crc x b h k =
    ap (λ i. bit_xor (table i) (crc / 2 ^ 8)) (masked_eq 8 crc x b (omega arith))

abbrev pub AllBytes : List ℕ → Type 0
AllBytes [] = Unit {0}
AllBytes (b ∷ bs) = (b < 256) × AllBytes bs

module _ (w b0 b1 b2 b3 b4 b5 b6 b7 : ℕ) (h : AllBytes (b0 ∷ b1 ∷ b2 ∷ b3 ∷ b4 ∷ b5 ∷ b6 ∷ b7 ∷ []))
    (e : w ≡ from_le_bytes (b0 ∷ b1 ∷ b2 ∷ b3 ∷ b4 ∷ b5 ∷ b6 ∷ b7 ∷ [])) where
  -- The byte that each of the eight steps reads.
  word_bytes :
      (w % u32_mod % 256 ≡ b0)
      × (w % u32_mod / 2 ^ 8 % 256 ≡ b1)
      × (w % u32_mod / 2 ^ 16 % 256 ≡ b2)
      × (w % u32_mod / 2 ^ 24 % 256 ≡ b3)
      × (w / 2 ^ 32 % 256 ≡ b4)
      × (w / 2 ^ 32 / 2 ^ 8 % 256 ≡ b5)
      × (w / 2 ^ 32 / 2 ^ 16 % 256 ≡ b6)
      × (w / 2 ^ 32 / 2 ^ 24 % 256 ≡ b7)
  unfolding from_le_bytes
  word_bytes = omega arith

  entry_bytes :
      (crc : ℕ)
      → crc32c_table_entry crc w ≡ bytes_loop crc (b0 ∷ b1 ∷ b2 ∷ b3 ∷ b4 ∷ b5 ∷ b6 ∷ b7 ∷ [])
  unfolding crc32c_table_entry bytes_loop
  entry_bytes crc =
      rw
        (
          lookup_step-mod crc (w % u32_mod) b0 word_bytes.0 h.0,
          lookup_step-mod _ (w % u32_mod / 2 ^ 8) b1 word_bytes.1 h.1.0,
          lookup_step-mod _ (w % u32_mod / 2 ^ 16) b2 word_bytes.2 h.1.1.0,
          lookup_step-mod _ (w % u32_mod / 2 ^ 24) b3 word_bytes.3 h.1.1.1.0,
          lookup_step-mod _ (w / 2 ^ 32) b4 word_bytes.4 h.1.1.1.1.0,
          lookup_step-mod _ (w / 2 ^ 32 / 2 ^ 8) b5 word_bytes.5 h.1.1.1.1.1.0,
          lookup_step-mod _ (w / 2 ^ 32 / 2 ^ 16) b6 word_bytes.6 h.1.1.1.1.1.1.0,
          lookup_step-mod _ (w / 2 ^ 32 / 2 ^ 24) b7 word_bytes.7 h.1.1.1.1.1.1.1.0,
        )
        refl

first_eight :
    (b0 b1 b2 b3 b4 b5 b6 b7 : ℕ) (rest : List ℕ)
    → AllBytes (b0 ∷ b1 ∷ b2 ∷ b3 ∷ b4 ∷ b5 ∷ b6 ∷ b7 ∷ rest)
    → AllBytes (b0 ∷ b1 ∷ b2 ∷ b3 ∷ b4 ∷ b5 ∷ b6 ∷ b7 ∷ [])
first_eight b0 b1 b2 b3 b4 b5 b6 b7 rest h = omega arith

chunks-bytes :
    (crc : ℕ) (input : List ℕ) → AllBytes input → chunks_loop crc input ≡ bytes_loop crc input
unfolding chunks_loop bytes_loop
chunks-bytes crc (b0 ∷ b1 ∷ b2 ∷ b3 ∷ b4 ∷ b5 ∷ b6 ∷ b7 ∷ rest) h =
    ap (λ c. chunks_loop c rest)
      (entry_bytes (from_le_bytes (b0 ∷ b1 ∷ b2 ∷ b3 ∷ b4 ∷ b5 ∷ b6 ∷ b7 ∷ [])) b0 b1 b2 b3 b4 b5 b6
        b7 (first_eight b0 b1 b2 b3 b4 b5 b6 b7 rest h) refl crc)
    ∙ chunks-bytes (bytes_loop crc (b0 ∷ b1 ∷ b2 ∷ b3 ∷ b4 ∷ b5 ∷ b6 ∷ b7 ∷ [])) rest
        (h.1.1.1.1.1.1.1.1)
chunks-bytes crc remainder h = refl

-- Working through words of eight bytes gives, for every list of bytes, the checksum of the plain
-- loop over single bytes.
pub software-bytes :
    (initial : ℕ) (input : List ℕ)
    → AllBytes input
    → crc32c_software initial input ≡ complement (bytes_loop (complement initial) input)
unfolding crc32c_software
software-bytes initial input h = ap complement (chunks-bytes (complement initial) input h)
