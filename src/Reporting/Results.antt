-- ===== src/Reporting/Results.antt =====
-- apib/apib_time.cc and, of apib/apib_reporting.cc, ReportResults: what a run comes to. The
-- arithmetic on doubles is a parameter.
pub mod Sorted
pub mod Rounding
pub mod Percentiles
pub mod Run
mod Tests
use apib.Prelude.{
  ℕ, zero, suc, ◌+◌, ◌-◌, ◌*◌, ◌/◌, ◌^◌, Option, none, some, List, [], ◌∷◌, ◌++◌, map, length,
  get_elem?, ltb, leb, ◌==◌, if◌then◌else◌, ◌>>=◌, flatten,
}
use apib.Prelude.Int.{ℤ, as_int}
use apib.Prelude.Doubles.{Doubles}
use apib.Thread.{Counters}
use apib.Reporting.{Report, IntervalResults}

-- std::sort over numbers: there is one ascending arrangement.
unfoldable pub insert : ℕ → List ℕ → List ℕ
insert x [] = x ∷ []
insert x (y ∷ ys) = if ltb y x then y ∷ insert x ys else x ∷ y ∷ ys

unfoldable pub sort : List ℕ → List ℕ
sort [] = []
sort (x ∷ xs) = insert x (sort xs)

-- the first loops of ReportResults
unfoldable pub all_latencies : List Counters → List ℕ
all_latencies [] = []
all_latencies (c ∷ cs) = c.latencies ++ all_latencies cs

abbrev pub sum : List ℕ → ℕ
sum [] = 0
sum (x ∷ xs) = x + sum xs

-- getAverageLatency; `none`: the sum does not fit a long long
unfoldable pub get_average_latency : List ℕ → Option ℕ
get_average_latency [] = some 0
get_average_latency (x ∷ xs) =
    let total = sum (x ∷ xs) in if ltb total (2 ^ 63) then some (total / length (x ∷ xs)) else none

pub record BenchmarkResults (D : Type 0) : Type 0 where
  -- five of int32_t
  pub completed_requests : ℤ
  pub successful_requests : ℤ
  pub unsuccessful_requests : ℤ
  pub socket_errors : ℤ
  pub connections_opened : ℤ
  pub total_bytes_sent : ℕ
  pub total_bytes_received : ℕ
  pub elapsed_time : D
  pub average_latency : D
  pub latency_std_dev : D
  pub latencies : List D
  pub average_throughput : D
  pub average_send_bandwidth : D
  pub average_receive_bandwidth : D

pub record BenchmarkIntervalResults (D : Type 0) : Type 0 where
  pub successful_requests : ℤ
  pub elapsed_time : D
  pub interval_time : D
  pub average_throughput : D

module _ (d : Doubles) where
  open d use {D, of, of_int, trunc, add, sub, mul, div, sqrt, square, less}

  -- Seconds and Milliseconds
  unfoldable pub seconds : ℕ → D
  seconds t = div (of t) (of 1000000000)

  unfoldable pub milliseconds : ℕ → D
  milliseconds t = div (of t) (div (of 1000000000) (of 1000))

  -- the index of getLatencyPercent
  unfoldable pub percent_index : ℕ → ℕ → ℕ
  percent_index size percent = trunc (mul (div (of size) (of 100)) (of percent))

  -- getLatencyPercent; `none` is a read behind the end
  unfoldable pub get_latency_percent : List ℕ → ℕ → Option ℕ
  get_latency_percent [] percent = some 0
  get_latency_percent (x ∷ xs) percent =
      let latencies = x ∷ xs in
      if percent == 100
      then get_elem? latencies (length latencies - 1)
      else get_elem? latencies (percent_index (length latencies) percent)

  abbrev differences : D → ℕ → List ℕ → D
  differences total avg [] = total
  differences total avg (l ∷ ls) =
      differences (add total (square (sub (milliseconds l) (of avg)))) avg ls

  -- getLatencyStdDev
  unfoldable pub get_latency_std_dev : List ℕ → Option D
  get_latency_std_dev [] = some (of 0)
  get_latency_std_dev (x ∷ xs) =
      let latencies = x ∷ xs in
      get_average_latency latencies >>= λ average.
      let avg = trunc (milliseconds average) in
      some (sqrt (div (differences (of 0) avg latencies) (of (length latencies))))

  -- the loop over the table of ReportResults, from percent `i` on
  unfoldable pub percent_table : List ℕ → ℕ → ℕ → Option (List D)
  percent_table latencies zero i = some []
  percent_table latencies (suc rounds) i = get_latency_percent latencies i >>= λ l.
      percent_table latencies rounds (i + 1) >>= λ ls. some (milliseconds l ∷ ls)

  -- megabits in a second
  abbrev bandwidth : ℕ → D → D
  bandwidth bytes elapsed = div (div (mul (of bytes) (of 8)) (of 1048576)) elapsed

  -- what ReportResults writes into its answer, with this average, deviation and table
  abbrev pub results_with : Report → ℕ → D → List D → BenchmarkResults D
  results_with r average deviation table =
      let completed = as_int (r.successful_requests + r.unsuccessful_requests) in
      let elapsed = seconds (r.stop_time - r.start_time) in
      record {
        completed_requests = completed;
        successful_requests = as_int r.successful_requests;
        unsuccessful_requests = as_int r.unsuccessful_requests;
        socket_errors = as_int r.socket_errors;
        connections_opened = as_int r.connections_opened;
        total_bytes_sent = r.total_bytes_sent;
        total_bytes_received = r.total_bytes_received;
        elapsed_time = elapsed;
        average_latency = milliseconds average;
        latency_std_dev = deviation;
        latencies = table;
        average_throughput = div (of_int completed) elapsed;
        average_send_bandwidth = bandwidth r.total_bytes_sent elapsed;
        average_receive_bandwidth = bandwidth r.total_bytes_received elapsed;
      }

  unfoldable pub report_results : Report → Option (BenchmarkResults D)
  report_results r =
      let latencies = sort (all_latencies r.accumulated_results) in
      get_average_latency latencies >>= λ average. get_latency_std_dev latencies >>= λ deviation.
      percent_table latencies 101 0 >>= λ table. some (results_with r average deviation table)

  abbrev total_of : D → List D → D
  total_of total [] = total
  total_of total (s ∷ ss) = total_of (add total s) ss

  -- getAverageCpu
  unfoldable pub get_average_cpu : List D → D
  get_average_cpu [] = of 0
  get_average_cpu (s ∷ ss) = div (total_of (of 0) (s ∷ ss)) (of (length (s ∷ ss)))

  -- std::max_element, from the element that is the largest so far
  abbrev largest : D → List D → D
  largest best [] = best
  largest best (s ∷ ss) = largest (if less best s then s else best) ss

  -- getMaxCpu
  unfoldable pub get_max_cpu : List D → D
  get_max_cpu [] = of 0
  get_max_cpu (s ∷ ss) = largest s ss

  -- the answer of ReportIntervalResults
  unfoldable pub interval_results : IntervalResults → BenchmarkIntervalResults D
  interval_results i =
      let interval = seconds i.interval_time in
      record {
        successful_requests = i.successful_requests;
        elapsed_time = seconds i.elapsed_time;
        interval_time = interval;
        average_throughput = div (of_int i.successful_requests) interval;
      }
