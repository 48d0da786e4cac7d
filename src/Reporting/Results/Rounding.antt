-- ===== src/Reporting/Results/Rounding.antt =====
-- apib/apib_reporting.cc, getLatencyPercent: the index that is computed in doubles, from what IEEE 754
-- says of a division, a product and a conversion.
use apib.Prelude.{ℕ, ◌+◌, ◌*◌, ◌≤◌, ◌<◌, ◌^◌, ◌≡◌, arith}
use apib.Prelude.Doubles.{Doubles, IsIeee}
use apib.Reporting.Results.{percent_index}

cancel_le : (k a b : ℕ) → 0 < k → a * k ≤ b * k → a ≤ b
cancel_le k a b pos h = grind arith

cancel_lt : (k a b : ℕ) → a * k < b * k → a < b
cancel_lt k a b h = grind arith

-- the bound on a hundredth, without the factor that both sides have
div_cancel :
    (v n k : ℕ)
    → 0 < k
    → 2 ^ 54 * (v * (100 * k)) ≤ (2 ^ 54 + 2) * (n * k * k) + 2 ^ 53 * (100 * k)
    → 2 ^ 54 * 100 * v ≤ (2 ^ 54 + 2) * (n * k) + 2 ^ 53 * 100
div_cancel v n k pos h =
    cancel_le k (2 ^ 54 * 100 * v) ((2 ^ 54 + 2) * (n * k) + 2 ^ 53 * 100) pos (grind arith)

mul_cancel :
    (w v i k : ℕ)
    → 0 < k
    → 2 ^ 54 * (w * k) ≤ (2 ^ 54 + 2) * (v * (i * k)) + 2 ^ 53 * k
    → 2 ^ 54 * w ≤ (2 ^ 54 + 2) * (v * i) + 2 ^ 53
mul_cancel w v i k pos h =
    cancel_le k (2 ^ 54 * w) ((2 ^ 54 + 2) * (v * i) + 2 ^ 53) pos (grind arith)

-- two roundings of less than a hundred hundredths stay below the whole
hundredths_below :
    (n v w : ℕ)
    → 2 ^ 64 ≤ n
    → 2 ^ 54 * 100 * v ≤ (2 ^ 54 + 2) * n + 2 ^ 53 * 100
    → 2 ^ 54 * w ≤ (2 ^ 54 + 2) * (v * 99) + 2 ^ 53
    → w < n
hundredths_below n v w large h k = omega (arith, large, h, k)

module _ (d : Doubles) (law : IsIeee d) where
  open law use {IsFinite, value, one, one_large, of_exact, div_up, mul_up, mul_mono, trunc_down}

  -- a hundredth of a size, and what a percentage of it comes to before it is cut
  abbrev hundredth : ℕ → d.D
  hundredth n = d.div (d.of n) (d.of 100)

  abbrev percentage : ℕ → ℕ → d.D
  percentage n i = d.mul (hundredth n) (d.of i)

  one_pos : 0 < one
  one_pos = let large = one_large in omega arith

  hundredth_finite :
      (n : ℕ)
      → n < 2 ^ 53
      → IsFinite (hundredth n)
        × (2 ^ 54 * 100 * value (hundredth n) ≤ (2 ^ 54 + 2) * (n * one) + 2 ^ 53 * 100)
        × (value (hundredth n) ≤ 2 ^ 64 * one)
  hundredth_finite n small =
      let (f, e) = of_exact n (omega arith) in
      let (f', e') = of_exact 100 (omega arith) in
      let size : n * one ≤ 2 ^ 53 * one = grind arith in
      let large = one_large in
      let (fin, up) = div_up (d.of n) (d.of 100) f f' (rw e (omega arith)) (rw e' (omega arith)) in
      let bound : 2 ^ 54 * 100 * value (hundredth n) ≤ (2 ^ 54 + 2) * (n * one) + 2 ^ 53 * 100 =
        div_cancel (value (hundredth n)) n one one_pos (rw (e, e') at up) in
      (fin, bound, omega (arith, bound, size, large))

  percentage_finite :
      (n i : ℕ)
      → n < 2 ^ 53
      → i ≤ 100
      → IsFinite (percentage n i)
        × (2 ^ 54 * value (percentage n i) ≤ (2 ^ 54 + 2) * (value (hundredth n) * i) + 2 ^ 53)
  percentage_finite n i small h =
      let (fin, bound, fits) = hundredth_finite n small in
      let (f, e) = of_exact i (omega arith) in
      let size : i * one ≤ 2 ^ 64 * one = grind arith in
      let (fin', up) = mul_up (hundredth n) (d.of i) fin f fits (rw e size) in
      (fin', mul_cancel (value (percentage n i)) (value (hundredth n)) i one one_pos (rw e at up))

  percentage_lt : (n i : ℕ) → 0 < n → n < 2 ^ 53 → i < 100 → value (percentage n i) < n * one
  percentage_lt n i pos small h =
      let (fin, bound, fits) = hundredth_finite n small in
      let (fin', up) = percentage_finite n i small (omega arith) in
      let less : value (hundredth n) * i ≤ value (hundredth n) * 99 = grind arith in
      let whole : one ≤ n * one = grind arith in
      let large = one_large in
      hundredths_below (n * one) (value (hundredth n)) (value (percentage n i)) (omega arith) bound
        (omega arith)

  in_range : (n i : ℕ) → 0 < n → n < 2 ^ 53 → i < 100 → value (percentage n i) < 2 ^ 64 * one
  in_range n i pos small h =
      let lt = percentage_lt n i pos small h in
      let size : n * one ≤ 2 ^ 64 * one = grind arith in omega arith

  cut :
      (n i : ℕ)
      → 0 < n
      → n < 2 ^ 53
      → i < 100
      → (percent_index d n i * one ≤ value (percentage n i))
        × (value (percentage n i) < (percent_index d n i + 1) * one)
  unfolding percent_index
  cut n i pos small h =
      trunc_down (percentage n i) (percentage_finite n i small (omega arith)).0
        (in_range n i pos small h)

  -- The index of a percentile below the last is in range, is 0 for the first, and does not descend.
  pub percent_index-lt : (n i : ℕ) → 0 < n → n < 2 ^ 53 → i < 100 → percent_index d n i < n
  percent_index-lt n i pos small h =
      let (c, _) = cut n i pos small h in
      let lt = percentage_lt n i pos small h in cancel_lt one (percent_index d n i) n (omega arith)

  pub percent_index-zero : (n : ℕ) → 0 < n → n < 2 ^ 53 → percent_index d n 0 ≡ 0
  percent_index-zero n pos small =
      let (c, _) = cut n 0 pos small (omega arith) in
      let (_, up) = percentage_finite n 0 small (omega arith) in
      let none : value (percentage n 0) ≡ 0 = omega arith in
      let least = cancel_lt one (percent_index d n 0) 1 (let p = one_pos in omega arith) in
      omega arith

  pub percent_index_mono :
      (n i j : ℕ) → 0 < n → n < 2 ^ 53 → i ≤ j → j < 100 → percent_index d n i ≤ percent_index d n j
  percent_index_mono n i j pos small h k =
      let (fin, bound, fits) = hundredth_finite n small in
      let (f, e) = of_exact i (omega arith) in
      let (g, e') = of_exact j (omega arith) in
      let order : i * one ≤ j * one = grind arith in
      let size : j * one ≤ 2 ^ 64 * one = grind arith in
      let mono =
        mul_mono (d.of i) (d.of j) (hundredth n) f g fin (rw e' size) fits (rw (e, e') order) in
      let (low, _) = cut n i pos small (omega arith) in
      let (_, high) = cut n j pos small k in
      let next = cancel_lt one (percent_index d n i) (percent_index d n j + 1) (omega arith) in
      omega arith
