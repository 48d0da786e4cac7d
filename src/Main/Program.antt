-- ===== src/Main/Program.antt =====
-- apib/apib_main.cc, main: from the command line to the calls that a run makes, in their order.
-- What is printed is left out.
pub mod Usage
use apib.Prelude.{
  ℕ, zero, suc, ◌+◌, Bool, true, false, not, ◌||◌, Option, none, some, List, [], ◌∷◌, ◌++◌, Bytes,
  codes, ◌==◌, if◌then◌else◌, ◌>>=◌,
}
use apib.Prelude.Int.{ℤ, positive_part, is_at_most_zero}
use apib.Main.{add_header, wait_and_report}
use apib.Main.Options.{Options, Parsing, default_options, parse_options}
use apib.Main.Run.{
  Machine, ThreadSetup, Initialized, less_int, set_process_limits, initialize_thread, thread_count,
  given,
}

-- the calls of a run: a thread by its index
pub data Action : Type 0 where
  record_init : Bytes → Bytes → Action
  start join : ThreadSetup → Action
  record_start record_stop : Action
  -- the sleeps of waitAndReport, and whether it warms up
  waits : List ℕ → Bool → Action
  request_stop : ThreadSetup → ℕ → Action
  short_results : Bytes → ℤ → ℤ → Action
  full_results end_reporting : Action
  -- std::terminate, which ends the program: a std::thread that still runs was deleted
  terminate : Action

-- How main ends: with the usage and a status, with a text that was asked for, or at the label
-- `finished`, behind these calls, and with status 0 if the program was not terminated.
pub data Outcome : Type 0 where
  usage : ℕ → Outcome
  version header_line aborted : Outcome
  finished : List Action → Outcome

-- threads that were set up and started, and the error that ended the loop
abbrev pub Started : Type 0
Started = List ThreadSetup × Bool

abbrev pub more_started : Option Started → Initialized → Option Started
more_started rest (Initialized.error code) = some ([], false)
more_started rest (Initialized.ready t) = rest >>= λ r. some (t ∷ r.0, r.1)

-- the loop that sets up and starts the threads from `i` on
unfoldable pub start_threads : Machine → Options → ℤ → ℕ → ℕ → Option Started
start_threads m o num_threads zero i = some ([], true)
start_threads m o num_threads (suc rounds) i =
    initialize_thread m o num_threads i
    >>= more_started (start_threads m o num_threads rounds (i + 1))

abbrev pub each : (ThreadSetup → Action) → List ThreadSetup → List Action
each f [] = []
each f (t ∷ ts) = f t ∷ each f ts

-- the end of a run
abbrev pub results : Options → ℤ → List Action
results o num_threads =
    (if o.short_output
      then Action.short_results o.run_name num_threads o.num_connections
      else Action.full_results)
    ∷ Action.end_reporting
    ∷ []

-- the run with `-1`
abbrev pub once : Options → ℤ → Initialized → List Action
once o num_threads (Initialized.error code) = []
once o num_threads (Initialized.ready t) =
    Action.record_start
    ∷ Action.start t
    ∷ Action.join t
    ∷ Action.record_stop
    ∷ results o num_threads

-- the end of the scope of the threads, where those that were started were not joined
abbrev pub destroyed : List ThreadSetup → List Action
destroyed [] = []
destroyed (t ∷ ts) = Action.terminate ∷ []

-- the run for a duration, with a warm-up of `warm` and a duration of `time` seconds
abbrev pub timed : Options → ℤ → List ℕ → List ℕ → Started → List Action
timed o num_threads warm time (ts, false) = each Action.start ts ++ destroyed ts
timed o num_threads warm time (ts, true) =
    each Action.start ts
    ++ ((if is_at_most_zero o.warmup_time
          then []
          else Action.record_start ∷ Action.waits warm true ∷ [])
        ++ (Action.record_start
            ∷ Action.waits time false
            ∷ Action.record_stop
            ∷ (each (λ t. Action.request_stop t 2) ts
                ++ (each Action.join ts ++ results o num_threads))))

-- behind the URLs and the limits
unfoldable pub run : Machine → Options → Option (List Action)
run m o =
    let num_threads = thread_count o m.cpu_count in
    (if o.just_once
      then (initialize_thread m o num_threads 0 >>= λ t. some (once o num_threads t))
      else (start_threads m o num_threads (positive_part num_threads) 0 >>= λ s.
          wait_and_report (positive_part o.warmup_time) >>= λ warm.
          wait_and_report (positive_part o.duration) >>= λ time.
          some (timed o num_threads warm time s)))
    >>= λ actions. some (Action.record_init o.monitor_host o.monitor2_host ∷ actions)

-- the URLs: a file behind '@', or one
abbrev pub init_urls : Machine → Bytes → Bool
init_urls m [] = false
init_urls m (c ∷ url) = if c == b'@' then m.init_file url else m.init_one (c ∷ url)

abbrev pub is_zero : ℤ → Bool
is_zero (ℤ.pos n) = n == 0
is_zero (ℤ.negsuc n) = false

-- for a URL
abbrev pub with_url : Machine → Options → Bytes → Option Outcome
with_url m o [] = some (Outcome.usage 0)
with_url m o (c ∷ url) =
    if not (init_urls m (c ∷ url))
    then some (Outcome.finished [])
    else if not (is_zero (set_process_limits o.num_connections m.rlim_cur m.rlim_max m.set_ok).0)
    then some (Outcome.finished [])
    else (run m o >>= λ actions. some (Outcome.finished actions))

-- `-t` is a header like another
abbrev pub add_content_type : Options → Options
add_content_type o =
    if given o.content_type
    then record o { header = add_header o.header (codes "Content-Type: " ++ o.content_type) }
    else o

-- the arguments behind the options: there has to be one
abbrev pub with_operands : Machine → Options → List Bytes → Option Outcome
with_operands m o [] = some (Outcome.usage 1)
with_operands m o (url ∷ []) =
    if o.failed then some (Outcome.usage 1) else with_url m (add_content_type o) url
with_operands m o (url ∷ other ∷ more) = some (Outcome.usage 1)

abbrev pub after_options : Machine → List Bytes → Parsing → Option Outcome
after_options m operands Parsing.header_line = some Outcome.header_line
after_options m operands Parsing.aborted = some Outcome.aborted
after_options m operands (Parsing.going o) =
    if o.do_help
    then some (Outcome.usage 0)
    else if o.do_version
    then some Outcome.version
    else with_operands m o operands

-- main, for the options and the other arguments that getopt_long tells apart; `none`: it crashes
unfoldable pub main :
    (Bytes → Option ℤ) → (Bytes → Bytes) → Machine → List (ℕ × Bytes) → List Bytes → Option Outcome
main simple_atoi base64 m args operands =
    after_options m operands (parse_options simple_atoi base64 default_options args)
