-- ===== src/Base/Word.antt =====
-- Go's fixed-width integers. A word is its bit pattern, a number below the modulus; `int` and
-- `time.Duration` are integers.
use Prim.Native.Nat.{ℕ, ◌+◌, ◌-◌, ◌%◌, ◌^◌, ◌<◌}

-- The number of values of a 64-bit word.
abbrev pub word64 : ℕ
word64 = 2 ^ 64

-- Addition on 64-bit words; a negative operand is its two's complement.
abbrev pub add64 : ℕ → ℕ → ℕ
add64 a b = (a + b) % word64

-- The bit pattern of -1.
abbrev pub minus_one : ℕ
minus_one = 2 ^ 64 - 1

abbrev pub IsByte : ℕ → Type 0
IsByte b = b < 256

-- `negsuc n` is -(n + 1).
pub data ℤ : Type 0 where
  pos : ℕ → ℤ
  negsuc : ℕ → ℤ
