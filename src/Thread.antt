-- ===== src/Thread.antt =====
-- apib/apib_commandqueue.h, apib/apib_commandqueue.cc and the part of apib/apib_iothread.h and
-- apib/apib_iothread.cc that belongs to a thread: its queue of commands, its counters and its list
-- of connections. Every call of libev is an effect of the model.
pub mod Queue
pub mod Counting
pub mod Resize
mod Tests
use apib.Prelude.{
  ℕ, zero, suc, ◌+◌, ◌-◌, ◌*◌, Bool, true, false, not, ◌&&◌, Option, none, some, List, [], ◌∷◌,
  ◌++◌, length, take, drop, map, ltb, leb, if◌then◌else◌,
}

-- ThreadCmd and Command, each command with the field that its reader reads
pub data Command : Type 0 where
  stop : ℕ → Command
  set_connections : ℕ → Command

-- CommandQueue::Add
unfoldable pub add : List Command → Command → List Command
add commands cmd = commands ++ (cmd ∷ [])

-- CommandQueue::Pop
unfoldable pub pop : List Command → Option (Command × List Command)
pop [] = none
pop (c ∷ cs) = some (c, cs)

pub record Counters : Type 0 where
  pub successful_requests : ℕ
  pub failed_requests : ℕ
  pub latencies : List ℕ
  pub bytes_read : ℕ
  pub bytes_written : ℕ

abbrev pub new_counters : Counters
new_counters = record {
  successful_requests = 0;
  failed_requests = 0;
  latencies = [];
  bytes_read = 0;
  bytes_written = 0;
}

-- recordResult
unfoldable pub record_result : Counters → ℕ → ℕ → Counters
record_result c status_code latency =
    if leb 200 status_code && ltb status_code 300
    then record c {
      successful_requests = suc c.successful_requests;
      latencies = c.latencies ++ (latency ∷ []);
    }
    else record c {
      failed_requests = suc c.failed_requests;
      latencies = c.latencies ++ (latency ∷ []);
    }

unfoldable pub record_read : Counters → ℕ → Counters
record_read c n = record c { bytes_read = c.bytes_read + n }

unfoldable pub record_write : Counters → ℕ → Counters
record_write c n = record c { bytes_written = c.bytes_written + n }

-- exchangeCounters: the counters until now, and those from now on
unfoldable pub exchange_counters : Counters → Counters × Counters
exchange_counters c = (c, new_counters)

-- What the thread asks of libev and of its connections.
pub data Effect : Type 0 where
  start_connect : ℕ → Effect
  stop_running : ℕ → Effect
  ref : Effect
  unref : Effect
  start_async : Effect
  start_shutdown_timer : ℕ → Effect

-- A thread, each connection known by its index_.
pub record IoThread : Type 0 where
  pub commands : List Command
  pub connections : List ℕ
  pub keep_running : Bool
  pub effects : List Effect

-- the first loop of setNumConnections, from the size `i`
abbrev pub grow : ℕ → ℕ → IoThread → IoThread
grow zero i t = t
grow (suc more) i t = grow more (suc i) (record t {
  connections = t.connections ++ (i ∷ []);
  effects = t.effects ++ (Effect.start_connect i ∷ []);
})

-- back() of a vector that is not empty, and pop_back()
abbrev pub back : ℕ → List ℕ → ℕ
back d [] = d
back d (c ∷ cs) = back c cs

abbrev pub pop_back : List ℕ → List ℕ
pop_back [] = []
pop_back (c ∷ []) = []
pop_back (c ∷ d ∷ cs) = c ∷ pop_back (d ∷ cs)

-- its second loop: `fewer` connections are asked to stop, the last one first
abbrev pub shrink : ℕ → IoThread → IoThread
shrink zero t = t
shrink (suc fewer) t = shrink fewer (record t {
  connections = pop_back t.connections;
  effects = t.effects ++ (Effect.stop_running (back 0 t.connections) ∷ []);
})

-- setNumConnections
unfoldable pub set_num_connections : IoThread → ℕ → IoThread
set_num_connections t new_val =
    if ltb (length t.connections) new_val
    then grow (new_val - length t.connections) (length t.connections) t
    else shrink (length t.connections - new_val) t

-- one round of the loop of processCommands
unfoldable pub run_command : IoThread → Command → IoThread
run_command t (Command.stop stop_timeout_secs) = record t {
  keep_running = false;
  effects =
      t.effects
      ++ (Effect.unref ∷ Effect.start_shutdown_timer stop_timeout_secs ∷ Effect.unref ∷ []);
}
run_command t (Command.set_connections n) = set_num_connections t n

-- processCommands, with a round for each call of Pop; `none`: no rounds left
abbrev pub after_pop :
    (IoThread → Option IoThread) → IoThread → Option (Command × List Command) → Option IoThread
after_pop more t none = some t
after_pop more t (some (c, cs)) = more (run_command (record t { commands = cs }) c)

abbrev pub command_loop : ℕ → IoThread → Option IoThread
command_loop zero t = none
command_loop (suc rounds) t = after_pop (command_loop rounds) t (pop t.commands)

unfoldable pub process_commands : IoThread → Option IoThread
process_commands t = command_loop (suc (length t.commands)) t

-- RequestStop and SetNumConnections queue a command and wake the loop up
unfoldable pub request_stop : IoThread → ℕ → IoThread
unfolding add
request_stop t timeout_secs = record t { commands = add t.commands (Command.stop timeout_secs) }

unfoldable pub ask_num_connections : IoThread → ℕ → IoThread
unfolding add
ask_num_connections t n = record t { commands = add t.commands (Command.set_connections n) }

-- Start: a negative keepRunning asks for one request only
abbrev pub start_flag : Bool → Bool
start_flag only_one = not only_one

-- threadLoopBody, up to ev_run: the first connections, and the references that hold the loop open
abbrev hold_open : IoThread → IoThread
hold_open t = if t.keep_running then record t { effects = t.effects ++ (Effect.ref ∷ []) } else t

unfoldable pub thread_loop_body : IoThread → ℕ → IoThread
thread_loop_body t num_connections = hold_open (
    grow num_connections 0
      (record t { effects = t.effects ++ (Effect.start_async ∷ Effect.unref ∷ []) }))
