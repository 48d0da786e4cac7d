-- ===== src/Reporting/Results/Tests.antt =====
-- The results of short runs, with the doubles as whole hundredths.
use mathlib.Core.List.{Mem}
use apib.Prelude.{
  ℕ, refl, ◌^◌, ◌+◌, ◌-◌, ◌*◌, ◌/◌, ◌<◌, ◌≤◌, ◌≡◌, true, some, List, [], ◌∷◌, map, ltb, arith,
}
use apib.Prelude.Int.{ℤ, positive_part}
use apib.Prelude.Doubles.{Doubles, IsIeee}
use apib.Thread.{Counters, new_counters, record_result, exchange_counters}
use apib.Reporting.{Report, record_start, record_stop, report_interval_results}
use apib.Reporting.Totals.{Event, run}
use apib.Reporting.Results.{sum, all_latencies, BenchmarkResults, milliseconds, report_results}
use apib.Reporting.Results.Percentiles.{count_from, report_results-percentiles}
use apib.Reporting.Results.Run.{report_results-totals}

-- the doubles as fixed point numbers with 64 bits behind the point
abbrev unit : ℕ
unit = 2 ^ 64

abbrev fixed : Doubles
fixed = record {
  D = ℕ;
  of = λ n. n * unit;
  trunc = λ x. x / unit;
  of_int = λ z. positive_part z * unit;
  add = λ x y. x + y;
  sub = λ x y. x - y;
  mul = λ x y. x * y / unit;
  div = λ x y. x * unit / y;
  sqrt = λ x. x;
  square = λ x. x * x / unit;
  less = ltb;
}

quotient_le : (a b : ℕ) → 0 < b → a / b * b ≤ a
quotient_le a b pos = grind arith

quotient_mono : (n x y : ℕ) → x ≤ y → n * x / unit ≤ n * y / unit
quotient_mono n x y h = let p : n * x ≤ n * y = grind arith in omega arith

fixed-IsIeee : IsIeee fixed
fixed-IsIeee = record {
  IsFinite = λ x. Unit;
  value = λ x. x;
  one = unit;
  one_large = omega arith;
  of_exact = λ n h. (tt, refl);
  div_up = λ x y f g h k. (tt, (let q = quotient_le (x * unit) y (omega arith) in omega arith));
  mul_up = λ x y f g h k. (tt, omega arith);
  mul_mono = λ x y z f g e h k l. quotient_mono z x y l;
  trunc_down = λ x f h. (omega arith, omega arith);
}

abbrev one : Counters
one = record new_counters { successful_requests = 2; latencies = 300000000 ∷ 100000000 ∷ [] }

abbrev two : Counters
two = record new_counters { failed_requests = 1; latencies = 200000000 ∷ [] }

abbrev report : Report
report = record {
  reporting = true;
  socket_errors = 0;
  connections_opened = 2;
  successful_requests = 2;
  unsuccessful_requests = 1;
  start_time = 0;
  stop_time = 4000000000;
  interval_start_time = 0;
  accumulated_results = one ∷ two ∷ [];
  total_bytes_sent = 0;
  total_bytes_received = 0;
  threads = new_counters ∷ [];
}

report_results-percentiles_example :
    let ls = all_latencies report.accumulated_results in
    (pick : ℕ → ℕ) × (res : BenchmarkResults ℕ) × (report_results fixed report ≡ some res)
    × (res.latencies ≡ map (λ i. milliseconds fixed (pick i)) (count_from 101 0))
    × ((i : ℕ) → i ≤ 100 → Mem (pick i) ls)
    × ((i j : ℕ) → i ≤ j → j ≤ 100 → pick i ≤ pick j)
    × ((x : ℕ) → Mem x ls → (pick 0 ≤ x) × (x ≤ pick 100))
    × ((average : ℕ) × (res.average_latency ≡ milliseconds fixed average)
        × (pick 0 ≤ average)
        × (average ≤ pick 100))
unfolding all_latencies
report_results-percentiles_example =
    report_results-percentiles fixed fixed-IsIeee report (omega arith) (omega arith) (omega arith)

abbrev events : List Event
events = Event.responds 0 200 5 ∷ Event.interval 4 ∷ Event.responds 0 500 7 ∷ []

few :
    sum
      (all_latencies (record_stop (run events (record_start report true 1)) 9).accumulated_results)
    < 2 ^ 63
unfolding all_latencies record_start record_stop report_interval_results record_result
    exchange_counters
few = omega arith

report_results-totals_example :
    (res : BenchmarkResults ℕ) × (report_results fixed
        (record_stop (run events (record_start report true 1)) 9)
      ≡ some res)
    × (res.completed_requests ≡ ℤ.pos 2)
    × (res.successful_requests ≡ ℤ.pos 1)
    × (res.unsuccessful_requests ≡ ℤ.pos 1)
report_results-totals_example =
    report_results-totals fixed fixed-IsIeee events report true 1 9 (omega arith) (omega arith) few
