-- ===== src/Base/Int.antt =====
-- Go's signed `int`, with its conversion to `uint32` and `int32`.
use Prim.Native.Nat.{ℕ, ◌-◌, ◌%◌, ◌^◌}
use mathlib.Core.Bool.{Bool, true, false}
use yllmd.Base.Tests.{ltb}

-- `negsuc n` is -(n + 1).
pub data ℤ : Type 0 where
  pos : ℕ → ℤ
  negsuc : ℕ → ℤ

abbrev pub is_negative : ℤ → Bool
is_negative (pos n) = false
is_negative (negsuc n) = true

-- `i > m` for a bound m that is not negative.
abbrev pub exceeds : ℤ → ℕ → Bool
exceeds (pos n) m = ltb m n
exceeds (negsuc n) m = false

-- `i <= 0`
abbrev pub is_nonpositive : ℤ → Bool
is_nonpositive (pos n) = ltb n 1
is_nonpositive (negsuc n) = true

-- `uint32(i)`, and the bits of `int32(i)`: the value modulo 2^32.
abbrev pub to_u32 : ℤ → ℕ
to_u32 (pos n) = n % 2 ^ 32
to_u32 (negsuc n) = 2 ^ 32 - 1 - n % 2 ^ 32
