-- ===== src/Reporting/Totals.antt =====
-- apib/apib_reporting.cc: the totals of a report are what the threads recorded, each record once.
use apib.Prelude.{
  ℕ, zero, suc, ◌+◌, ◌≡◌, refl, ap, ◌∙◌, Bool, true, false, not, ◌&&◌, List, [], ◌∷◌, ◌++◌, length,
  length-append, ltb, leb, arith, if◌then◌else◌, inl, inr, Bool-cases,
}
use apib.Thread.{Counters, record_result, exchange_counters}
use apib.Reporting.{
  Report, take_counters, collect, successes, failures, record_start, record_stop,
  report_interval_results,
}

-- the latencies of all these counters
abbrev pub samples : List Counters → ℕ
samples [] = 0
samples (c ∷ cs) = length c.latencies + samples cs

-- What a report and its threads hold together.
pub record Tally : Type 0 where
  pub good : ℕ
  pub bad : ℕ
  pub latencies : ℕ

abbrev pub tally : Report → Tally
tally r = record {
  good = r.successful_requests + successes r.threads;
  bad = r.unsuccessful_requests + failures r.threads;
  latencies = samples r.accumulated_results + samples r.threads;
}

abbrev pub one_if : Bool → ℕ
one_if true = 1
one_if false = 0

abbrev pub is_success : ℕ → Bool
is_success code = leb 200 code && ltb code 300

-- the counters behind a response of thread `i`
abbrev pub record_at : List Counters → ℕ → ℕ → ℕ → List Counters
record_at [] i code latency = []
record_at (c ∷ cs) zero code latency = record_result c code latency ∷ cs
record_at (c ∷ cs) (suc i) code latency = c ∷ record_at cs i code latency

-- What happens to a report while it runs: a thread gets a response, or an interval is reported.
pub data Event : Type 0 where
  responds : ℕ → ℕ → ℕ → Event
  interval : ℕ → Event

abbrev pub run : List Event → Report → Report
run [] r = r
run (Event.responds i code latency ∷ es) r =
    run es (record r { threads = record_at r.threads i code latency })
run (Event.interval now ∷ es) r = run es (report_interval_results r now).1

-- there is a thread `i` among `n`
abbrev pub is_thread : ℕ → ℕ → Bool
is_thread i zero = false
is_thread zero (suc n) = true
is_thread (suc i) (suc n) = is_thread i n

-- the responses among the events of `n` threads
abbrev pub responses : ℕ → List Event → Tally
responses n [] = record { good = 0; bad = 0; latencies = 0 }
responses n (Event.responds i code latency ∷ es) =
    let rest = responses n es in
    let ours = one_if (is_thread i n) in
    record {
      good = (if is_thread i n then one_if (is_success code) else 0) + rest.good;
      bad = (if is_thread i n then one_if (not (is_success code)) else 0) + rest.bad;
      latencies = ours + rest.latencies;
    }
responses n (Event.interval now ∷ es) = responses n es

take_counters-taken :
    (ts : List Counters)
    → (successes (take_counters ts).0 ≡ successes ts)
      × (failures (take_counters ts).0 ≡ failures ts)
      × (samples (take_counters ts).0 ≡ samples ts)
unfolding exchange_counters
take_counters-taken [] = (refl, refl, refl)
take_counters-taken (t ∷ ts) =
    let (p, q, r) = take_counters-taken ts in
    (
      ap (λ n. t.successful_requests + n) p,
      ap (λ n. t.failed_requests + n) q,
      ap (λ n. length t.latencies + n) r,
    )

take_counters-left :
    (ts : List Counters)
    → (successes (take_counters ts).1 ≡ 0)
      × (failures (take_counters ts).1 ≡ 0)
      × (samples (take_counters ts).1 ≡ 0)
      × (length (take_counters ts).1 ≡ length ts)
unfolding exchange_counters
take_counters-left [] = (refl, refl, refl, refl)
take_counters-left (t ∷ ts) =
    let (p, q, r, l) = take_counters-left ts in
    (omega (arith, p), omega (arith, q), omega (arith, r), ap suc l)

samples-append : (xs ys : List Counters) → samples (xs ++ ys) ≡ samples xs + samples ys
samples-append [] ys = omega arith
samples-append (x ∷ xs) ys = omega (arith, samples-append xs ys)

-- what a response adds to these counters
record_at-adds :
    (ts : List Counters) (i code latency : ℕ)
    → (successes (record_at ts i code latency)
        ≡ (if is_thread i (length ts) then one_if (is_success code) else 0) + successes ts)
      × (failures (record_at ts i code latency)
          ≡ (if is_thread i (length ts) then one_if (not (is_success code)) else 0) + failures ts)
      × (samples (record_at ts i code latency) ≡ one_if (is_thread i (length ts)) + samples ts)
      × (length (record_at ts i code latency) ≡ length ts)
unfolding record_result
record_at-adds [] i code latency = (refl, refl, refl, refl)
record_at-adds (t ∷ ts) zero code latency = elim (Bool-cases (is_success code)) [
  | inl good ↦
      rw good
        (omega arith, omega arith, omega (arith, length-append t.latencies (latency ∷ [])), refl)
  | inr bad ↦
      rw bad
        (omega arith, omega arith, omega (arith, length-append t.latencies (latency ∷ [])), refl)
]
record_at-adds (t ∷ ts) (suc i) code latency =
    let (p, q, r, l) = record_at-adds ts i code latency in
    (omega (arith, p), omega (arith, q), omega (arith, r), ap suc l)

abbrev pub plus : Tally → Tally → Tally
plus a b = record {
  good = a.good + b.good;
  bad = a.bad + b.bad;
  latencies = a.latencies + b.latencies;
}

tally_eq : (a b : Tally) → a.good ≡ b.good → a.bad ≡ b.bad → a.latencies ≡ b.latencies → a ≡ b
tally_eq a b g f l = λ i. record { good = g i; bad = f i; latencies = l i }

-- Collecting moves what the threads hold to the report, and leaves them with nothing.
collect-tally :
    (r : Report)
    → (tally (collect r) ≡ tally r)
      × ((collect r).successful_requests ≡ (tally r).good)
      × ((collect r).unsuccessful_requests ≡ (tally r).bad)
      × (samples (collect r).accumulated_results ≡ (tally r).latencies)
collect-tally r =
    let (p, q, s, l) = take_counters-left r.threads in
    let (p', q', s') = take_counters-taken r.threads in
    let joined = samples-append r.accumulated_results (take_counters r.threads).0 in
    (
      tally_eq _ _ (omega (arith, p, p')) (omega (arith, q, q')) (omega (arith, s, s', joined)),
      ap (λ n. r.successful_requests + n) p',
      ap (λ n. r.unsuccessful_requests + n) q',
      joined ∙ ap (λ n. samples r.accumulated_results + n) s',
    )

run-tally :
    (es : List Event) (r : Report)
    → tally (run es r) ≡ plus (responses (length r.threads) es) (tally r)
unfolding report_interval_results
run-tally [] r = tally_eq _ _ (omega arith) (omega arith) (omega arith)
run-tally (Event.responds i code latency ∷ es) r =
    let (p, q, s, l) = record_at-adds r.threads i code latency in
    run-tally es (record r { threads = record_at r.threads i code latency })
    ∙ rw l (tally_eq _ _ (omega (arith, p)) (omega (arith, q)) (omega (arith, s)))
run-tally (Event.interval now ∷ es) r =
    let (p, q, s, l) = take_counters-left r.threads in
    run-tally es (record (collect r) { interval_start_time = now })
    ∙ rw l (ap (plus (responses (length r.threads) es)) (collect-tally r).0)

-- From RecordStart to RecordStop, whatever the threads held before and however responses and
-- intervals follow one another, the report counts the responses of the run, the successful and the
-- others, each once, and keeps one latency for each.
pub record_stop-totals :
    (es : List Event) (r : Report) (on : Bool) (t₀ t₁ : ℕ)
    → let end = record_stop (run es (record_start r on t₀)) t₁ in
      let all = responses (length r.threads) es in
      (end.successful_requests ≡ all.good)
      × (end.unsuccessful_requests ≡ all.bad)
      × (samples end.accumulated_results ≡ all.latencies)
unfolding record_stop record_start
record_stop-totals es r on t₀ t₁ =
    let (p, q, s, l) = take_counters-left r.threads in
    let (_, g, b, n) = collect-tally (run es (record_start r on t₀)) in
    let whole = run-tally es (record_start r on t₀) in
    let same = ap (λ k. responses k es) l in
    (
      g ∙ ap (λ t. t.good) whole ∙ omega (arith, p, ap (λ t. t.good) same),
      b ∙ ap (λ t. t.bad) whole ∙ omega (arith, q, ap (λ t. t.bad) same),
      n ∙ ap (λ t. t.latencies) whole ∙ omega (arith, s, ap (λ t. t.latencies) same),
    )
