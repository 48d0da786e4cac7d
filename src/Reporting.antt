-- ===== src/Reporting.antt =====
-- apib/apib_reporting.h and apib/apib_reporting.cc: the totals of a run, from the counters of the
-- threads. The remote monitors are in Monitors, and the arithmetic on doubles in Results.
pub mod Totals
pub mod Results
pub mod Monitors
pub mod Samples
mod Tests
use apib.Prelude.{ℕ, suc, ◌+◌, ◌-◌, Bool, true, false, List, [], ◌∷◌, ◌++◌, if◌then◌else◌}
use apib.Prelude.Int.{ℤ, as_int}
use apib.Thread.{Counters, new_counters, exchange_counters}

-- the statics of the file, and the counters that each thread holds
pub record Report : Type 0 where
  pub reporting : Bool
  pub socket_errors : ℕ
  pub connections_opened : ℕ
  pub successful_requests : ℕ
  pub unsuccessful_requests : ℕ
  pub start_time : ℕ
  pub stop_time : ℕ
  pub interval_start_time : ℕ
  pub accumulated_results : List Counters
  pub total_bytes_sent : ℕ
  pub total_bytes_received : ℕ
  pub threads : List Counters

-- RecordSocketError
unfoldable pub record_socket_error : Report → Report
record_socket_error r = if r.reporting then record r { socket_errors = suc r.socket_errors } else r

-- RecordConnectionOpen
unfoldable pub record_connection_open : Report → Report
record_connection_open r =
    if r.reporting then record r { connections_opened = suc r.connections_opened } else r

-- RecordByteCounts
unfoldable pub record_byte_counts : Report → ℕ → ℕ → Report
record_byte_counts r sent received = record r {
  total_bytes_sent = r.total_bytes_sent + sent;
  total_bytes_received = r.total_bytes_received + received;
}

-- a loop that exchanges the counters of every thread: those taken, and those left
abbrev pub take_counters : List Counters → List Counters × List Counters
take_counters [] = ([], [])
take_counters (t ∷ ts) =
    let (c, new) = exchange_counters t in let r = take_counters ts in (c ∷ r.0, new ∷ r.1)

-- the clock of RecordStart
abbrev set_start : ℕ → Report → Report
set_start now r = record r { start_time = now; interval_start_time = now }

-- RecordStart, at time `now`; what it measures is in Samples.
unfoldable pub record_start : Report → Bool → ℕ → Report
record_start r start_reporting now = set_start now (record r {
  reporting = start_reporting;
  socket_errors = 0;
  connections_opened = 0;
  successful_requests = 0;
  unsuccessful_requests = 0;
  accumulated_results = [];
  total_bytes_sent = 0;
  total_bytes_received = 0;
  threads = (take_counters r.threads).1;
})

abbrev pub successes : List Counters → ℕ
successes [] = 0
successes (c ∷ cs) = c.successful_requests + successes cs

abbrev pub failures : List Counters → ℕ
failures [] = 0
failures (c ∷ cs) = c.failed_requests + failures cs

abbrev pub received : List Counters → ℕ
received [] = 0
received (c ∷ cs) = c.bytes_read + received cs

abbrev pub sent : List Counters → ℕ
sent [] = 0
sent (c ∷ cs) = c.bytes_written + sent cs

-- what the loops of RecordStop and ReportIntervalResults add up
abbrev pub collect : Report → Report
collect r =
    let (taken, left) = take_counters r.threads in
    record r {
      total_bytes_received = r.total_bytes_received + received taken;
      total_bytes_sent = r.total_bytes_sent + sent taken;
      successful_requests = r.successful_requests + successes taken;
      unsuccessful_requests = r.unsuccessful_requests + failures taken;
      accumulated_results = r.accumulated_results ++ taken;
      threads = left;
    }

-- RecordStop, at time `now`; what it measures is in Samples.
unfoldable pub record_stop : Report → ℕ → Report
record_stop r now = record (collect r) { reporting = false; stop_time = now }

-- the numbers of BenchmarkIntervalResults, the times not yet in seconds: Results goes on with them
pub record IntervalResults : Type 0 where
  -- an int32_t
  pub successful_requests : ℤ
  pub elapsed_time : ℕ
  pub interval_time : ℕ

-- ReportIntervalResults, at time `now`
unfoldable pub report_interval_results : Report → ℕ → IntervalResults × Report
report_interval_results r now = (
  record {
    successful_requests = as_int (successes (take_counters r.threads).0);
    elapsed_time = now - r.start_time;
    interval_time = now - r.interval_start_time;
  },
  record (collect r) { interval_start_time = now },
)
