-- ===== src/Prelude/Word.antt =====
-- Machine words as native numbers. An `int32_t` is its bit pattern, below 2 ^ 32, so that the
-- code's mixed signed and unsigned comparisons keep their meaning.
use Prim.Native.Nat.{ℕ, ◌+◌, ◌-◌, ◌%◌, ◌^◌}
use mathlib.Core.Bool.{Bool}
use ece391os.Prelude.Tests.{ltb}

abbrev pub u8 : ℕ → ℕ
u8 n = n % 2 ^ 8

abbrev pub u32 : ℕ → ℕ
u32 n = n % 2 ^ 32

-- The bit pattern of -1.
abbrev pub minus_one : ℕ
minus_one = 0xffff_ffff

-- `a < b` on two `int32_t`: flipping the sign bit turns the signed order into the unsigned one.
abbrev pub signed_lt : ℕ → ℕ → Bool
signed_lt a b = ltb ((a + 2 ^ 31) % 2 ^ 32) ((b + 2 ^ 31) % 2 ^ 32)

-- `a - b` on 32-bit words.
abbrev pub sub32 : ℕ → ℕ → ℕ
sub32 a b = (a + 2 ^ 32 - b) % 2 ^ 32
