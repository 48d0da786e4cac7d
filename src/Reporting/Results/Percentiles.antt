-- ===== src/Reporting/Results/Percentiles.antt =====
-- apib/apib_reporting.cc, ReportResults: the table of latencies is taken from those of the run, in
-- order, from the least to the greatest.
use mathlib.Core.List.{Mem}
use mathlib.Core.List.Perm
use apib.Prelude.{
  ℕ, zero, suc, ◌+◌, ◌-◌, ◌≤◌, ◌<◌, ◌^◌, ◌≡◌, refl, false, Bool-cases, inl, inr, some, true, ltb,
  Option, ◌>>=◌, ◌/◌, List, [], ◌∷◌, map, length, get_or, get_elem?-eq-get_or, ◌==◌, if◌then◌else◌,
  arith,
}
use apib.Prelude.Doubles.{Doubles, IsIeee}
use apib.Reporting.{Report}
use apib.Reporting.Results.{
  sort, all_latencies, BenchmarkResults, milliseconds, percent_index, get_latency_percent,
  percent_table, report_results, results_with, get_average_latency, get_latency_std_dev, sum,
}
use apib.Reporting.Results.Sorted.{
  sort-IsSorted, sort-perm, length-sort, get_or_mono, mem-get_or, head_least, last_greatest,
  average_bounds, sum-sort,
}
use apib.Reporting.Results.Rounding.{percent_index-lt, percent_index-zero, percent_index_mono}

-- `rounds` numbers from `i` on
abbrev pub count_from : ℕ → ℕ → List ℕ
count_from zero i = []
count_from (suc rounds) i = i ∷ count_from rounds (i + 1)

get_average_latency-some :
    (ls : List ℕ) → sum ls < 2 ^ 63 → (average : ℕ) × (get_average_latency ls ≡ some average)
unfolding get_average_latency
get_average_latency-some [] h = (0, refl)
get_average_latency-some (x ∷ xs) h =
    let fits : ltb (sum (x ∷ xs)) (2 ^ 63) ≡ true = ground arith in
    (sum (x ∷ xs) / length (x ∷ xs), rw fits refl)

mapped :
    {A B : Type 0} (o : Option A) (a : A) (f : A → B)
    → o ≡ some a
    → (b : B) × ((o >>= λ x. some (f x)) ≡ some b)
mapped o a f e = (f a, rw e refl)

module _ (d : Doubles) where
  -- the place of a percentile among `n` latencies
  abbrev rank : ℕ → ℕ → ℕ
  rank n i = if i == 100 then n - 1 else percent_index d n i

  rank-lt : IsIeee d → (n i : ℕ) → 0 < n → n < 2 ^ 53 → i ≤ 100 → rank n i < n
  rank-lt law n i pos small h = elim (Bool-cases (i == 100)) [
    | inl e ↦ rw e (omega arith)
    | inr e ↦ rw e (percent_index-lt d law n i pos small (ground arith))
  ]

  rank_zero : IsIeee d → (n : ℕ) → 0 < n → n < 2 ^ 53 → rank n 0 ≡ 0
  rank_zero law n pos small = percent_index-zero d law n pos small

  rank_mono : IsIeee d → (n i j : ℕ) → 0 < n → n < 2 ^ 53 → i ≤ j → j ≤ 100 → rank n i ≤ rank n j
  rank_mono law n i j pos small h k = elim (Bool-cases (j == 100)) [
    | inl e ↦ (let r = rank-lt law n i pos small (omega arith) in rw e (omega (arith, r)))
    | inr e ↦
        (let f : (i == 100) ≡ false = ground arith in
          rw (e, f) (percent_index_mono d law n i j pos small h (ground arith)))
  ]

  get_latency_percent-rank :
      IsIeee d
      → (ls : List ℕ) (i : ℕ) → 0 < length ls
      → length ls < 2 ^ 53
      → i ≤ 100
      → get_latency_percent d ls i ≡ some (get_or ls (rank (length ls) i) 0)
  unfolding get_latency_percent
  get_latency_percent-rank law [] i pos small h = absurd (omega arith)
  get_latency_percent-rank law (x ∷ xs) i pos small h =
      let r = rank-lt law (length (x ∷ xs)) i pos small h in
      let e = get_elem?-eq-get_or (x ∷ xs) (rank (length (x ∷ xs)) i) 0 r in
      elim (Bool-cases (i == 100)) [ inl c ↦ rw c (rw c at e) | inr c ↦ rw c (rw c at e) ]

  percent_table-ranks :
      IsIeee d
      → (ls : List ℕ) (rounds i : ℕ) → 0 < length ls
      → length ls < 2 ^ 53
      → i + rounds ≤ 101
      → percent_table d ls rounds i
        ≡ some (map (λ k. milliseconds d (get_or ls (rank (length ls) k) 0)) (count_from rounds i))
  unfolding percent_table
  percent_table-ranks law ls zero i pos small h = refl
  percent_table-ranks law ls (suc rounds) i pos small h = rw (
    get_latency_percent-rank law ls i pos small (omega arith),
    percent_table-ranks law ls rounds (i + 1) pos small (omega arith),
  )

  get_latency_std_dev-some :
      (ls : List ℕ)
      → sum ls < 2 ^ 63
      → (deviation : d.D) × (get_latency_std_dev d ls ≡ some deviation)
  unfolding get_latency_std_dev
  get_latency_std_dev-some [] h = (_, refl)
  get_latency_std_dev-some (x ∷ xs) h =
      let (average, e) = get_average_latency-some (x ∷ xs) h in
      mapped (get_average_latency (x ∷ xs)) average _ e

  mem-sort : {x : ℕ} (xs : List ℕ) → Mem x xs → Mem x (sort xs)
  mem-sort xs m = (Perm.mem_iff (sort-perm xs)).1 m

  -- ReportResults reads no latency out of range.
  pub report_results-ranks :
      IsIeee d
      → (r : Report)
      → let ls = sort (all_latencies r.accumulated_results) in
        0 < length ls
        → length ls < 2 ^ 53
        → sum ls < 2 ^ 63
        → (average : ℕ) × (get_average_latency ls ≡ some average)
          × (deviation : d.D) × (report_results d r
              ≡ some (
                  results_with d r average deviation (
                    map
                      (λ i. milliseconds d (get_or ls (rank (length ls) i) 0))
                      (count_from 101 0))))
  unfolding report_results
  report_results-ranks law r pos small fits =
      let ls = sort (all_latencies r.accumulated_results) in
      let (average, e) = get_average_latency-some ls fits in
      let (deviation, f) = get_latency_std_dev-some ls fits in
      (
        average,
        e,
        deviation,
        rw (e, f, percent_table-ranks law ls 101 0 pos small (omega arith)) refl,
      )

  -- For double arithmetic that rounds as IEEE 754 says, and at least one and fewer than 2 ^ 53
  -- latencies, which add up to less than 2 ^ 63: ReportResults reads none out of range; each entry
  -- of its table is a latency that was recorded, the table ascends, its first and last entries
  -- bound every latency, and the average lies between them.
  pub report_results-percentiles :
      IsIeee d
      → (r : Report)
      → let ls = all_latencies r.accumulated_results in
        0 < length ls
        → length ls < 2 ^ 53
        → sum ls < 2 ^ 63
        → (pick : ℕ → ℕ) × (res : BenchmarkResults d.D) × (report_results d r ≡ some res)
          × (res.latencies ≡ map (λ i. milliseconds d (pick i)) (count_from 101 0))
          × ((i : ℕ) → i ≤ 100 → Mem (pick i) ls)
          × ((i j : ℕ) → i ≤ j → j ≤ 100 → pick i ≤ pick j)
          × ((x : ℕ) → Mem x ls → (pick 0 ≤ x) × (x ≤ pick 100))
          × ((average : ℕ) × (res.average_latency ≡ milliseconds d average)
              × (pick 0 ≤ average)
              × (average ≤ pick 100))
  report_results-percentiles law r pos small fits =
      let ls = all_latencies r.accumulated_results in
      let n = length-sort ls in
      let pick : ℕ → ℕ = λ i. get_or (sort ls) (rank (length (sort ls)) i) 0 in
      let first : rank (length (sort ls)) 0 ≡ 0 =
        rank_zero law (length (sort ls)) (omega (arith, n)) (omega (arith, n)) in
      let total = sum-sort ls in
      let fits' : sum (sort ls) < 2 ^ 63 = omega (arith, fits, total) in
      let (average, is_average, deviation, table) =
        report_results-ranks law r (omega (arith, n)) (omega (arith, n)) fits' in
      let bound : (i : ℕ) → i ≤ 100 → rank (length (sort ls)) i < length (sort ls) =
        λ i h. rank-lt law (length (sort ls)) i (omega (arith, n)) (omega (arith, n)) h in
      let within : (x : ℕ) → Mem x (sort ls) → (pick 0 ≤ x) × (x ≤ pick 100) = λ x m. (
        rw first (head_least x (sort ls) (sort-IsSorted ls) m),
        last_greatest x (sort ls) (sort-IsSorted ls) m,
      ) in
      let (average', same, low, high) =
        average_bounds (pick 0) (pick 100) (sort ls) (omega (arith, n)) fits' within in
      let agree : average' ≡ average = cc in
      (
        pick,
        results_with d r average deviation (map (λ i. milliseconds d (pick i)) (count_from 101 0)),
        table,
        refl,
        λ i h. (Perm.mem_iff (sort-perm ls)).0 (mem-get_or (sort ls) _ (bound i h)),
        λ i j h k.
            get_or_mono (sort ls) _ _ (sort-IsSorted ls)
              (rank_mono law (length (sort ls)) i j (omega (arith, n)) (omega (arith, n)) h k)
              (bound j k),
        λ x m. within x (mem-sort ls m),
        (average, refl, rw agree at low, rw agree at high),
      )
