-- ===== src/Security/Crc32c.antt =====
-- The software CRC32C (core/src/security/crc32c.rs). Words are numbers below 2 ^ 32 and 2 ^ 64; the
-- table entry of a byte is computed where the source looks it up.
pub mod Chunks
mod Tests
use Prim.Native.Nat.{bit_and, bit_xor}
use do_logger.Prelude.{
  ℕ, zero, suc, ◌+◌, ◌-◌, ◌*◌, ◌/◌, ◌%◌, ◌^◌, List, [], ◌∷◌, ◌==◌, if◌then◌else◌,
}
use do_logger.Prelude.Words.{u32_mod}

abbrev pub polynomial : ℕ
polynomial = 0x1EDC6F41

-- One round of the table's inner loop, and `n` of them.
pub table_round : ℕ → ℕ
table_round crc = if bit_and crc 1 == 0 then crc / 2 else bit_xor polynomial (crc / 2)

pub table_rounds : ℕ → ℕ → ℕ
table_rounds zero crc = crc
table_rounds (suc n) crc = table_rounds n (table_round crc)

-- CRC32C_TABLE at an index below 256.
pub table : ℕ → ℕ
unfolding table_round table_rounds
table i = table_rounds 8 i

-- `t[((crc ^ x) & 0xFF) as usize] ^ (crc >> 8)`.
pub lookup_step : ℕ → ℕ → ℕ
unfolding table
lookup_step crc x = bit_xor (table (bit_and (bit_xor crc x) 0xFF)) (crc / 2 ^ 8)

pub crc32c_table_entry : ℕ → ℕ → ℕ
unfolding lookup_step
crc32c_table_entry crc word =
    let lo = word % u32_mod in
    let hi = word / 2 ^ 32 in
    let a = lookup_step crc lo in
    let b = lookup_step a (lo / 2 ^ 8) in
    let c = lookup_step b (lo / 2 ^ 16) in
    let d = lookup_step c (lo / 2 ^ 24) in
    let e = lookup_step d hi in
    let f = lookup_step e (hi / 2 ^ 8) in
    let g = lookup_step f (hi / 2 ^ 16) in lookup_step g (hi / 2 ^ 24)

-- `u64::from_le_bytes` of a chunk.
pub from_le_bytes : List ℕ → ℕ
from_le_bytes [] = 0
from_le_bytes (b ∷ bs) = b + 2 ^ 8 * from_le_bytes bs

-- `!x` on 32 bits.
pub complement : ℕ → ℕ
complement x = u32_mod - 1 - x

-- The loop over the remainder.
pub bytes_loop : ℕ → List ℕ → ℕ
unfolding lookup_step
bytes_loop crc [] = crc
bytes_loop crc (b ∷ bs) = bytes_loop (lookup_step crc b) bs

-- The loop over the chunks of eight bytes, then the one over the remainder.
pub chunks_loop : ℕ → List ℕ → ℕ
unfolding crc32c_table_entry from_le_bytes bytes_loop
chunks_loop crc (b0 ∷ b1 ∷ b2 ∷ b3 ∷ b4 ∷ b5 ∷ b6 ∷ b7 ∷ rest) =
    chunks_loop
      (crc32c_table_entry crc (from_le_bytes (b0 ∷ b1 ∷ b2 ∷ b3 ∷ b4 ∷ b5 ∷ b6 ∷ b7 ∷ []))) rest
chunks_loop crc remainder = bytes_loop crc remainder

pub crc32c_software : ℕ → List ℕ → ℕ
unfolding chunks_loop complement
crc32c_software initial input = complement (chunks_loop (complement initial) input)
