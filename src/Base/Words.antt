-- ===== src/Base/Words.antt =====
-- The C integer types as native numbers. An unsigned type wraps by `%`; a signed one is kept as its
-- bit pattern, where a number at or above half the modulus stands for a negative value.
use Prim.Native.Nat.{ℕ, ◌+◌, ◌^◌, ◌%◌}

abbrev pub u8_mod : ℕ
u8_mod = 2 ^ 8

abbrev pub u16_mod : ℕ
u16_mod = 2 ^ 16

abbrev pub u32_mod : ℕ
u32_mod = 2 ^ 32

abbrev pub u64_mod : ℕ
u64_mod = 2 ^ 64

-- uint32_t and uint64_t sums
abbrev pub add32 : ℕ → ℕ → ℕ
add32 a b = (a + b) % u32_mod

abbrev pub add64 : ℕ → ℕ → ℕ
add64 a b = (a + b) % u64_mod
