-- ===== src/Wire/Bytes.antt =====
-- `encoding/binary.LittleEndian`, as the runner protocol uses it, on lists of bytes.
use native.Mathlib.Nat.{pow-suc}
use mathlib.Core.Option
use mathlib.Core.Path.{subst}
use yllmd.Base.{
  ℕ, zero, suc, ◌+◌, ◌*◌, ◌/◌, ◌%◌, ◌^◌, ◌<◌, ◌≡◌, refl, ap, true, Option, none, some, List, [],
  ◌∷◌, ◌++◌, arith, leb, le→leb, if◌then◌else◌, length, length-append, take, drop, take-append,
  drop-append, All,
}

abbrev pub Bytes : Type 0
Bytes = List ℕ

-- The `width` low bytes of a number, lowest first (`PutUint16`, `PutUint32`, `PutUint64`).
unfoldable pub le_bytes : ℕ → ℕ → Bytes
le_bytes zero n = []
le_bytes (suc width) n = (n % 256) ∷ le_bytes width (n / 256)

-- The number that bytes stand for, lowest first (`Uint16`, `Uint32`).
unfoldable pub from_le : Bytes → ℕ
from_le [] = 0
from_le (b ∷ bs) = b + 256 * from_le bs

pub length-le_bytes : (width n : ℕ) → length (le_bytes width n) ≡ width
unfolding le_bytes
length-le_bytes zero n = refl
length-le_bytes (suc width) n = ap suc (length-le_bytes width (n / 256))

pub from_le-le_bytes : (width n : ℕ) → n < 256 ^ width → from_le (le_bytes width n) ≡ n
unfolding from_le le_bytes
from_le-le_bytes zero n h = omega arith
from_le-le_bytes (suc width) n h =
    let below : n < 256 * 256 ^ width = omega (arith, pow-suc 256 width) in
    omega (arith, from_le-le_bytes width (n / 256) (omega arith))

abbrev pub IsByte : ℕ → Type 0
IsByte b = b < 256

pub le_bytes-from_le : (bs : Bytes) → All IsByte bs → le_bytes (length bs) (from_le bs) ≡ bs
unfolding from_le le_bytes
le_bytes-from_le [] h = refl
le_bytes-from_le (b ∷ bs) h =
    let low : (b + 256 * from_le bs) % 256 ≡ b = omega (arith, h.0) in
    let high : (b + 256 * from_le bs) / 256 ≡ from_le bs = omega (arith, h.0) in
    rw (low, high, le_bytes-from_le bs h.1)

pub from_le-lt : (bs : Bytes) → All IsByte bs → from_le bs < 256 ^ length bs
unfolding from_le
from_le-lt [] h = omega arith
from_le-lt (b ∷ bs) h = omega (arith, pow-suc 256 (length bs), from_le-lt bs h.1, h.0)

-- The first `n` bytes and the rest, if there are so many.
unfoldable pub split : ℕ → Bytes → Option (Bytes × Bytes)
split n bs = if leb n (length bs) then some (take n bs, drop n bs) else none

unfoldable pub read_le : ℕ → Bytes → Option (ℕ × Bytes)
unfolding from_le split
read_le width bs = Option.map (λ (field, rest). (from_le field, rest)) (split width bs)

pub split-append : (xs ys : Bytes) → split (length xs) (xs ++ ys) ≡ some (xs, ys)
unfolding split
split-append xs ys =
    let fits : leb (length xs) (length (xs ++ ys)) ≡ true =
      le→leb _ _ (omega (arith, length-append {0} xs ys)) in
    rw (fits, take-append xs ys, drop-append xs ys)

-- A field of a known width is read back, whatever follows it.
pub read_le-le_bytes :
    (width n : ℕ) (rest : Bytes)
    → n < 256 ^ width
    → read_le width (le_bytes width n ++ rest) ≡ some (n, rest)
unfolding read_le
read_le-le_bytes width n rest h =
    let split_here : split width (le_bytes width n ++ rest) ≡ some (le_bytes width n, rest) =
      subst (λ k. split k (le_bytes width n ++ rest) ≡ some (le_bytes width n, rest))
        (length-le_bytes width n) (split-append (le_bytes width n) rest) in
    rw split_here (rw (from_le-le_bytes width n h))

pub read_byte : (b : ℕ) (rest : Bytes) → read_le 1 (b ∷ rest) ≡ some (b, rest)
unfolding read_le
read_byte b rest = ground arith
