-- ===== src/Base/Words.antt =====
-- Machine words: numbers below a power of two, with the wrap-around written out.
use Prim.Native.Nat.{ℕ, ◌+◌, ◌-◌, ◌%◌}

-- The number of values of a 64-bit and of a 32-bit unsigned word.
abbrev pub word64 : ℕ
word64 = 18446744073709551616

abbrev pub word32 : ℕ
word32 = 4294967296

-- Addition and subtraction of `size_t`.
abbrev pub add64 : ℕ → ℕ → ℕ
add64 a b = (a + b) % word64

abbrev pub sub64 : ℕ → ℕ → ℕ
sub64 a b = (a + word64 - b) % word64

-- A signed integer: `negsuc n` is -(n + 1).
pub data ℤ : Type 0 where
  pos : ℕ → ℤ
  negsuc : ℕ → ℤ
