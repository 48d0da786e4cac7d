-- ===== src/Main/Split.antt =====
-- apib/apib_main.cc, initializeThread: the connections of the threads.
use native.Mathlib.Nat.{mod-lt, suc-mul, mul_comm, div-add-mod'}
use apib.Prelude.{
  ℕ, zero, suc, ◌+◌, ◌*◌, ◌/◌, ◌%◌, ◌<◌, ◌≤◌, ◌≡◌, ◌∙◌, ltb, arith, inl, inr, Bool-cases, min,
}
use apib.Main.{num_conn}

-- the connections of the first `k` threads
abbrev pub total : ℕ → ℕ → ℕ → ℕ
total n threads zero = 0
total n threads (suc k) = total n threads k + num_conn n threads k

total-first : (n threads k : ℕ) → total n threads k ≡ k * (n / threads) + min k (n % threads)
unfolding num_conn
total-first n threads zero = omega arith
total-first n threads (suc k) =
    let ih = total-first n threads k in
    let step = suc-mul k (n / threads) in
    elim (Bool-cases (ltb k (n % threads))) [
      | inl more ↦ rw more (ground (arith, ih, step))
      | inr even ↦ rw even (ground (arith, ih, step))
    ]

-- For one thread at least, the threads have all the connections together, and no two threads
-- differ by more than one.
pub num_conn-total :
    (n threads : ℕ)
    → 0 < threads
    → (total n threads threads ≡ n)
      × ((i j : ℕ) → num_conn n threads i ≤ suc (num_conn n threads j))
unfolding num_conn
num_conn-total n threads h = (
  total-first n threads threads
      ∙ omega (arith, mul_comm threads (n / threads), div-add-mod' n threads, mod-lt n h),
  λ i j. ground arith,
)
