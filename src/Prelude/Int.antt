-- ===== src/Prelude/Int.antt =====
-- Signed integers over the native numbers: what the code adds and takes away.
use Prim.Native.Nat.{ℕ, suc, ◌+◌, ◌-◌, ◌≤◌, ◌<◌, ◌%◌, ◌^◌}
use mathlib.Core.Path.{◌≡◌, refl}
use mathlib.Core.Bool.{Bool, true}
use native.Mathlib.Omega.{arith}
use apib.Prelude.Tests.{leb, ltb, if◌then◌else◌}

-- `negsuc n` is -(n + 1)
pub data ℤ : Type 0 where
  pos : ℕ → ℤ
  negsuc : ℕ → ℤ

abbrev pub positive_part : ℤ → ℕ
positive_part (pos n) = n
positive_part (negsuc n) = 0

abbrev pub negative_part : ℤ → ℕ
negative_part (pos n) = 0
negative_part (negsuc n) = suc n

-- a - b
abbrev pub difference : ℕ → ℕ → ℤ
difference a b = if leb b a then pos (a - b) else negsuc (b - a - 1)

infixl 65 ◌+ℤ◌ ◌-ℤ◌
unfoldable pub ◌+ℤ◌ : ℤ → ℤ → ℤ
a +ℤ b = difference (positive_part a + positive_part b) (negative_part a + negative_part b)

unfoldable pub ◌-ℤ◌ : ℤ → ℤ → ℤ
a -ℤ b = difference (positive_part a + negative_part b) (negative_part a + positive_part b)

-- `a <= 0`
abbrev pub is_at_most_zero : ℤ → Bool
is_at_most_zero (pos n) = leb n 0
is_at_most_zero (negsuc n) = true

pub pos-sub : (m n : ℕ) → n ≤ m → pos m -ℤ pos n ≡ pos (m - n)
unfolding ◌-ℤ◌
pos-sub m n h = ground arith

pub pos-add : (m n : ℕ) → pos m +ℤ pos n ≡ pos (m + n)
unfolding ◌+ℤ◌
pos-add m n = ground arith

-- `(int)n` of a number of 64 bits, and what an int32_t keeps of it
abbrev pub as_int : ℕ → ℤ
as_int n = let m = n % 2 ^ 32 in if ltb m (2 ^ 31) then ℤ.pos m else ℤ.negsuc (2 ^ 32 - m - 1)

pub as_int-small : (n : ℕ) → n < 2 ^ 31 → as_int n ≡ ℤ.pos n
as_int-small n h =
    let m : n % 2 ^ 32 ≡ n = omega arith in
    let l : ltb n (2 ^ 31) ≡ true = ground arith in rw (m, l) refl
