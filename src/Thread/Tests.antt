-- ===== src/Thread/Tests.antt =====
-- The theorems on threads at concrete inputs.
use apib.Prelude.{◌≡◌, refl, true, false, some, List, [], ◌∷◌, ◌++◌}
use apib.Thread.{Command, new_counters, Effect, IoThread, process_commands}
use apib.Thread.Queue.{QueueCall, run_calls, run_calls-fifo}
use apib.Thread.Counting.{CounterCall, run_counters, plus, total, run_counters-total}
use apib.Thread.Resize.{process_commands-all}

abbrev calls : List QueueCall
calls =
    QueueCall.adds (Command.set_connections 2)
    ∷ QueueCall.pops
    ∷ QueueCall.pops
    ∷ QueueCall.adds (Command.stop 1)
    ∷ QueueCall.adds (Command.stop 2)
    ∷ []

run_calls-fifo_example :
    let r = run_calls calls [] in
    r.0 ++ r.1 ≡ Command.set_connections 2 ∷ Command.stop 1 ∷ Command.stop 2 ∷ []
run_calls-fifo_example = run_calls-fifo calls []

abbrev records : List CounterCall
records =
    CounterCall.result 200 5
    ∷ CounterCall.reads 10
    ∷ CounterCall.exchange
    ∷ CounterCall.result 404 6
    ∷ CounterCall.writes 7
    ∷ CounterCall.exchange
    ∷ CounterCall.result 204 7
    ∷ []

run_counters-total_example :
    let r = run_counters records new_counters in
    plus (total r.0) r.1 ≡ record {
      successful_requests = 2;
      failed_requests = 1;
      latencies = 5 ∷ 6 ∷ 7 ∷ [];
      bytes_read = 10;
      bytes_written = 7;
    }
run_counters-total_example = run_counters-total records new_counters

abbrev thread : List Command → IoThread
thread commands = record {
  commands = commands;
  connections = 0 ∷ 1 ∷ 2 ∷ [];
  keep_running = true;
  effects = [];
}

process_commands-all_example :
    process_commands
      (thread (Command.set_connections 4 ∷ Command.stop 1 ∷ Command.set_connections 3 ∷ []))
    ≡ some (record {
      commands = [];
      connections = 0 ∷ 1 ∷ 2 ∷ [];
      keep_running = false;
      effects =
          Effect.start_connect 3
          ∷ Effect.unref
          ∷ Effect.start_shutdown_timer 1
          ∷ Effect.unref
          ∷ Effect.stop_running 3
          ∷ [];
    })
process_commands-all_example =
    process_commands-all
      (thread (Command.set_connections 4 ∷ Command.stop 1 ∷ Command.set_connections 3 ∷ [])) 3 refl
