-- ===== src/Base/Float.antt =====
-- A `float64` is its 64-bit pattern, as `math.Float64bits` gives it. The order of values that are
-- not NaN is that of `key`, since a pattern without its sign grows with the magnitude.
use Prim.Native.Nat.{ℕ, ◌≤◌, ◌<◌, ◌+◌, ◌-◌, ◌%◌, ◌^◌}
use mathlib.Core.Path.{◌≡◌}
use mathlib.Core.Logic.{◌↔◌}
use mathlib.Core.Bool.{Bool, true, false, not, ◌&&◌, ◌||◌}
use native.Mathlib.Omega.{arith}
use yllmd.Base.Tests.{ltb, nat_beq, if◌then◌else◌}

abbrev pub Float64 : Type 0
Float64 = ℕ

unfoldable pub magnitude : Float64 → ℕ
magnitude x = x % 2 ^ 63

abbrev pub infinity : ℕ
infinity = 0x7ff0_0000_0000_0000

unfoldable pub is_nan : Float64 → Bool
unfolding magnitude
is_nan x = ltb infinity (magnitude x)

unfoldable pub is_inf : Float64 → Bool
unfolding magnitude
is_inf x = nat_beq (magnitude x) infinity

-- Both zeros have the key 2^63; negative values lie below it.
unfoldable pub key : Float64 → ℕ
unfolding magnitude
key x = if ltb x (2 ^ 63) then 2 ^ 63 + magnitude x else 2 ^ 63 - magnitude x

-- Go's `<`, which is false at a NaN.
unfoldable pub float_lt : Float64 → Float64 → Bool
unfolding is_nan key
float_lt x y = not (is_nan x) && (not (is_nan y) && ltb (key x) (key y))

-- Go's `<=`, which is false at a NaN.
unfoldable pub float_le : Float64 → Float64 → Bool
unfolding is_nan key
float_le x y = not (is_nan x) && (not (is_nan y) && not (ltb (key y) (key x)))

-- `!math.IsNaN(x) && !math.IsInf(x, 0)`
unfoldable pub finite : Float64 → Bool
unfolding is_nan is_inf
finite x = not (is_nan x) && not (is_inf x)

-- A finite value from `low` to `high`, both included.
abbrev pub InClosed : Float64 → Float64 → Float64 → Type 0
InClosed low high x = (finite x ≡ true) × (key low ≤ key x) × (key x ≤ key high)

-- A finite value above `low` and up to `high`.
abbrev pub InHalfOpen : Float64 → Float64 → Float64 → Type 0
InHalfOpen low high x = (finite x ≡ true) × (key low < key x) × (key x ≤ key high)

-- The tests that Go writes for such ranges, with bounds that are numbers.
module _ (low high x : Float64) (bounds : (is_nan low ≡ false) × (is_nan high ≡ false)) where
  pub closed_range :
      ((not (finite x) || (float_lt x low || float_lt high x)) ≡ false) ↔ InClosed low high x
  unfolding finite float_lt
  closed_range = ground (arith)

  pub half_open_range :
      ((not (finite x) || (float_le x low || float_lt high x)) ≡ false) ↔ InHalfOpen low high x
  unfolding finite float_lt float_le
  half_open_range = ground (arith)
