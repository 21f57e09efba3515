-- ===== src/Prelude/Words.antt =====
-- Machine words as native numbers: the largest values, and additions that wrap or saturate.
use Prim.Native.Nat.{ℕ, ◌+◌, ◌-◌, ◌*◌, ◌%◌, ◌^◌, min}

abbrev pub u32_mod : ℕ
u32_mod = 2 ^ 32

abbrev pub u64_mod : ℕ
u64_mod = 2 ^ 64

abbrev pub u64_max : ℕ
u64_max = 2 ^ 64 - 1

-- `fetch_add` on `AtomicU32` and `AtomicU64`.
abbrev pub wrap_add32 : ℕ → ℕ → ℕ
wrap_add32 a b = (a + b) % u32_mod

abbrev pub wrap_add64 : ℕ → ℕ → ℕ
wrap_add64 a b = (a + b) % u64_mod

-- `saturating_add` and `saturating_mul` on `u64`.
abbrev pub sat_add64 : ℕ → ℕ → ℕ
sat_add64 a b = min (a + b) u64_max

abbrev pub sat_mul64 : ℕ → ℕ → ℕ
sat_mul64 a b = min (a * b) u64_max
