-- ===== src/Reporting/Results/Run.antt =====
-- apib/apib_reporting.cc, from RecordStart to ReportResults: the results of a run count its
-- responses, and do not depend on the order in which the threads gave their counters.
use mathlib.Core.Logic.{∥∥₁_elim}
use mathlib.Core.List.{Perm, Permᴰ}
use apib.Prelude.{
  ℕ, ◌+◌, ◌<◌, ◌^◌, ◌≡◌, refl, ap, ◌∙◌, Bool, Bool-cases, inl, inr, some, List, [], ◌∷◌, length,
  length-append, arith,
}
use apib.Prelude.Int.{ℤ, as_int, as_int-small}
use apib.Prelude.Doubles.{Doubles, IsIeee}
use apib.Thread.{Counters}
use apib.Reporting.{Report, record_start, record_stop}
use apib.Reporting.Totals.{
  Event, run, responses, samples, is_thread, is_success, record_stop-totals,
}
use apib.Reporting.Results.{sum, insert, sort, all_latencies, BenchmarkResults, report_results}
use apib.Reporting.Results.Sorted.{length-sort, sum-sort}
use apib.Reporting.Results.Percentiles.{report_results-ranks}

insert_comm : (x y : ℕ) (l : List ℕ) → insert x (insert y l) ≡ insert y (insert x l)
unfolding insert
insert_comm x y [] = ground arith
insert_comm x y (z ∷ l) = ground (arith, insert_comm x y l)

sort-Permᴰ : {xs ys : List ℕ} → Permᴰ xs ys → sort xs ≡ sort ys
unfolding sort
sort-Permᴰ Permᴰ.nil = refl
sort-Permᴰ (Permᴰ.cons {a} {b} e h) = λ i. insert (e i) (sort-Permᴰ h i)
sort-Permᴰ (Permᴰ.swap {a} {b} {l = l} e f) =
    insert_comm a b (sort l) ∙ λ i. insert (f i) (insert (e i) (sort l))
sort-Permᴰ (Permᴰ.trans h k) = sort-Permᴰ h ∙ sort-Permᴰ k

Numbers-set : IsSet (List ℕ)
Numbers-set = hlevel

sort-Perm : {xs ys : List ℕ} → Perm xs ys → sort xs ≡ sort ys
sort-Perm h = ∥∥₁_elim h (Numbers-set _ _) sort-Permᴰ

length-all_latencies : (cs : List Counters) → length (all_latencies cs) ≡ samples cs
unfolding all_latencies
length-all_latencies [] = refl
length-all_latencies (c ∷ cs) =
    length-append c.latencies (all_latencies cs)
    ∙ ap (◌+◌ (length c.latencies)) (length-all_latencies cs)

-- each response is a good or a bad one
responses-split :
    (n : ℕ) (es : List Event)
    → (responses n es).good + (responses n es).bad ≡ (responses n es).latencies
responses-split n [] = omega arith
responses-split n (Event.responds i code latency ∷ es) =
    let ih = responses-split n es in
    elim (Bool-cases (is_thread i n)) [
      | inl ours ↦ elim (Bool-cases (is_success code)) [
        | inl good ↦ rw (ours, good) (omega (arith, ih))
        | inr bad ↦ rw (ours, bad) (omega (arith, ih))
      ]
      | inr other ↦ rw other (omega (arith, ih))
    ]
responses-split n (Event.interval now ∷ es) = responses-split n es

int_is : (m n : ℕ) → n < 2 ^ 31 → m ≡ n → as_int m ≡ ℤ.pos n
int_is m n small e = ap as_int e ∙ as_int-small n small

module _ (d : Doubles) where
  -- Where the latencies that the threads gave are the same but for their order, ReportResults
  -- gives the same results.
  report_results-Perm :
      (r : Report) (results : List Counters)
      → Perm (all_latencies results) (all_latencies r.accumulated_results)
      → report_results d (record r { accumulated_results = results }) ≡ report_results d r
  unfolding report_results
  report_results-Perm r results p = rw (sort-Perm p) refl

  -- For double arithmetic that rounds as IEEE 754 says: whatever the threads held before
  -- RecordStart, and however at least one and fewer than 2 ^ 31 responses, whose latencies add up
  -- to less than 2 ^ 63, and intervals follow one another up to RecordStop, ReportResults gives a
  -- result, whose completed, successful and unsuccessful requests are those of the responses, each
  -- counted once.
  pub report_results-totals :
      IsIeee d
      → (es : List Event) (r : Report) (on : Bool) (t₀ t₁ : ℕ)
      → let all = responses (length r.threads) es in
        let end = record_stop (run es (record_start r on t₀)) t₁ in
        0 < all.latencies
        → all.latencies < 2 ^ 31
        → sum (all_latencies end.accumulated_results) < 2 ^ 63
        → (res : BenchmarkResults d.D) × (report_results d end ≡ some res)
          × (res.completed_requests ≡ ℤ.pos all.latencies)
          × (res.successful_requests ≡ ℤ.pos all.good)
          × (res.unsuccessful_requests ≡ ℤ.pos all.bad)
  report_results-totals law es r on t₀ t₁ pos small fits =
      let end = record_stop (run es (record_start r on t₀)) t₁ in
      let (g, b, l) = record_stop-totals es r on t₀ t₁ in
      let n = length-all_latencies end.accumulated_results in
      let split = responses-split (length r.threads) es in
      let m = length-sort (all_latencies end.accumulated_results) in
      let s = sum-sort (all_latencies end.accumulated_results) in
      let (_, _, _, e) =
        report_results-ranks d law end (omega (arith, n, l, m)) (omega (arith, n, l, m))
          (omega (arith, s, fits)) in
      (
        _,
        e,
        int_is _ (responses (length r.threads) es).latencies small (omega (arith, g, b, split)),
        int_is _ (responses (length r.threads) es).good (omega (arith, split, small)) g,
        int_is _ (responses (length r.threads) es).bad (omega (arith, split, small)) b,
      )
