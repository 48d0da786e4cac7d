-- ===== src/Prelude/Doubles.antt =====
-- The arithmetic on `double`s, as a parameter: the operations that the code asks of it.
use Prim.Native.Nat.{ℕ, ◌+◌, ◌*◌, ◌≤◌, ◌<◌, ◌^◌}
use mathlib.Core.Path.{◌≡◌}
use mathlib.Core.Bool.{Bool}
use apib.Prelude.Int.{ℤ}

pub record Doubles : Type 1 where
  pub D : Type 0
  -- the conversion of an integer that is not negative, and back, towards zero
  pub of : ℕ → D
  pub trunc : D → ℕ
  -- the conversion of any integer
  pub of_int : ℤ → D
  pub add : D → D → D
  pub sub : D → D → D
  pub mul : D → D → D
  pub div : D → D → D
  pub sqrt : D → D
  -- pow(x, 2.0)
  pub square : D → D
  pub less : D → D → Bool

-- What IEEE 754 says of numbers of 53 bits that are neither negative nor infinite nor NaN, with
-- their values in units of the least positive number. A quotient or a product
-- is at most the exact one, 2 ^ -53 of it more, and half a unit more.
pub record IsIeee (d : Doubles) : Type 1 where
  pub IsFinite : d.D → Type 0
  pub value : d.D → ℕ
  -- the value of 1
  pub one : ℕ
  pub one_large : 2 ^ 64 ≤ one
  pub of_exact : (n : ℕ) → n ≤ 2 ^ 53 → IsFinite (d.of n) × (value (d.of n) ≡ n * one)
  pub div_up :
      (x y : d.D)
      → IsFinite x
      → IsFinite y
      → value x ≤ 2 ^ 64 * one
      → one ≤ value y
      → IsFinite (d.div x y)
        × (2 ^ 54 * (value (d.div x y) * value y)
            ≤ (2 ^ 54 + 2) * (value x * one) + 2 ^ 53 * value y)
  pub mul_up :
      (x y : d.D)
      → IsFinite x
      → IsFinite y
      → value x ≤ 2 ^ 64 * one
      → value y ≤ 2 ^ 64 * one
      → IsFinite (d.mul x y)
        × (2 ^ 54 * (value (d.mul x y) * one) ≤ (2 ^ 54 + 2) * (value x * value y) + 2 ^ 53 * one)
  -- rounding keeps order
  pub mul_mono :
      (x y z : d.D)
      → IsFinite x
      → IsFinite y
      → IsFinite z
      → value y ≤ 2 ^ 64 * one
      → value z ≤ 2 ^ 64 * one
      → value x ≤ value y
      → value (d.mul z x) ≤ value (d.mul z y)
  -- the conversion to an integer of 64 bits cuts the fraction off
  pub trunc_down :
      (x : d.D)
      → IsFinite x
      → value x < 2 ^ 64 * one
      → (d.trunc x * one ≤ value x) × (value x < (d.trunc x + 1) * one)
