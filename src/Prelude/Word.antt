-- ===== src/Prelude/Word.antt =====
-- Machine words as native numbers that wrap by `%`.
use Prim.Native.Nat.{ℕ, ◌+◌, ◌-◌, ◌%◌, ◌^◌}

abbrev pub u8_mod : ℕ
u8_mod = 2 ^ 8

abbrev pub u32_mod : ℕ
u32_mod = 2 ^ 32

abbrev pub u64_mod : ℕ
u64_mod = 2 ^ 64

abbrev pub u8 : ℕ → ℕ
u8 n = n % u8_mod

abbrev pub u32 : ℕ → ℕ
u32 n = n % u32_mod

abbrev pub u64 : ℕ → ℕ
u64 n = n % u64_mod

-- uint64_t a - b, for b below 2 ^ 64.
abbrev pub sub_u64 : ℕ → ℕ → ℕ
sub_u64 a b = u64 (a + u64_mod - b)
