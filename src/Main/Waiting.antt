-- ===== src/Main/Waiting.antt =====
-- apib/apib_main.cc, waitAndReport.
use apib.Prelude.{
  ℕ, zero, suc, ◌+◌, ◌-◌, ◌<◌, ◌≤◌, ◌≡◌, refl, Option, some, List, [], ◌∷◌, ltb, arith, inl, inr,
  Bool-cases, All,
}
use apib.Main.{report_sleep_time, wait_loop, wait_and_report}

abbrev pub sum : List ℕ → ℕ
sum [] = 0
sum (n ∷ ns) = n + sum ns

abbrev pub Sleeps : ℕ → Option (List ℕ) → Type 0
Sleeps duration r =
    (s : List ℕ) × (r ≡ some s)
    × (sum s ≡ duration)
    × All (λ n. (0 < n) × (n ≤ report_sleep_time)) s

wait_loop-Sleeps : (rounds left : ℕ) → left < rounds → Sleeps left (wait_loop rounds left)
unfolding wait_loop
wait_loop-Sleeps zero left h = absurd (omega arith)
wait_loop-Sleeps (suc rounds) left h = elim (Bool-cases (ltb 0 left)) [
  | inr over ↦ rw over ([], refl, ground arith, tt)
  | inl more ↦ elim (Bool-cases (ltb left report_sleep_time)) [
    | inl last ↦
        (let pos : 0 < left = ground arith in
          let (s, e, t, a) = wait_loop-Sleeps rounds (left - left) (omega arith) in
          rw (more, last, e) (left ∷ s, refl, omega (arith, t), ((pos, ground arith), a)))
    | inr full ↦
        (let pos : report_sleep_time ≤ left = ground arith in
          let (s, e, t, a) = wait_loop-Sleeps rounds (left - report_sleep_time) (omega arith) in
          rw (more, full, e)
            (report_sleep_time ∷ s, refl, omega (arith, t), ((omega arith, omega arith), a)))
  ]
]

-- waitAndReport ends and sleeps for the duration, in steps of one second to the time between two
-- reports.
wait_and_report-Sleeps : (duration : ℕ) → Sleeps duration (wait_and_report duration)
unfolding wait_and_report
wait_and_report-Sleeps duration = wait_loop-Sleeps (suc duration) duration (omega arith)
