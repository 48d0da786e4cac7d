-- ===== src/Reporting/Tests.antt =====
-- The totals of a run with two threads, one of which had counted something before.
use apib.Prelude.{true, List, [], ◌∷◌}
use apib.Thread.{Counters, new_counters}
use apib.Reporting.{Report}
use apib.Reporting.Totals.{Event}

abbrev warm : Counters
warm = record new_counters { successful_requests = 7; latencies = 1 ∷ [] }

abbrev report : Report
report = record {
  reporting = true;
  socket_errors = 1;
  connections_opened = 1;
  successful_requests = 3;
  unsuccessful_requests = 0;
  start_time = 0;
  stop_time = 0;
  interval_start_time = 0;
  accumulated_results = warm ∷ [];
  total_bytes_sent = 0;
  total_bytes_received = 0;
  threads = warm ∷ new_counters ∷ [];
}

abbrev events : List Event
events =
    Event.responds 0 200 5
    ∷ Event.interval 4
    ∷ Event.responds 1 204 6
    ∷ Event.responds 1 500 7
    ∷ Event.interval 8
    ∷ Event.responds 0 299 8
    ∷ []
