-- ===== src/Main/Tests.antt =====
-- The theorems on the main program at concrete inputs.
use apib.Prelude.{
  ℕ, ◌<◌, ◌≡◌, ◌^◌, ◌-◌, refl, Bool, true, false, Option, some, none, List, [], ◌∷◌, Bytes, codes,
  length, All, arith,
}
use apib.Prelude.Int.{ℤ, positive_part}
use apib.Status.{ok_status}
use apib.Util.{eqcase, eqcase_loop, to_lower, is_upper}
use apib.Oauth.{str_split}
use apib.Url.{UrlInfo}
use apib.Connection.{ThreadConf, request}
use apib.Main.Headers.{add_headers, no_headers, noted, request-with_lines}
use apib.Main.Options.{Options, default_options}
use apib.Main.Run.{Machine, ThreadSetup, set_process_limits, thread_count}
use apib.Main.Run.Limits.{set_process_limits-large}
use apib.Main.Run.Threads.{connections, start_threads-total, run-no_connections}
use apib.Main.Program.{Outcome, start_threads, run, main}
use apib.Main.Program.Usage.{RunsNothing, main-refused}

abbrev url : UrlInfo
url = record {
  path = codes "/a";
  is_ssl = false;
  path_only = codes "/a";
  query = [];
  host_name = codes "h";
  host_header = codes "h";
  port = 80;
  lookup_status = ok_status;
  addresses = [];
}

abbrev lines : List Bytes
lines = codes "user-agent: me" ∷ codes "X: 1" ∷ []

abbrev conf : ThreadConf
conf = record {
  http_verb = codes "GET";
  send_data = [];
  oauth = false;
  headers = (add_headers no_headers lines).headers;
  headers_set = (add_headers no_headers lines).set_headers;
  think_time = 0;
  no_keep_alive = false;
  keep_running = true;
  index = 0;
}

-- the same with a signature
abbrev signed : ThreadConf
signed = record conf {
  oauth = true;
  headers_set = noted true (add_headers no_headers lines).set_headers;
}

request-with_lines_example :
    request signed url (codes "Authorization: OAuth")
    ≡ codes "GET /a HTTP/1.1\r\nHost: h\r\nAuthorization: OAuth\r\nuser-agent: me\r\nX: 1\r\n\r\n"
unfolding eqcase eqcase_loop to_lower is_upper str_split
request-with_lines_example =
    request-with_lines signed url (codes "Authorization: OAuth") lines refl refl

-- no limit is the greatest number of 64 bits
set_process_limits-large_example :
    set_process_limits (ℤ.pos 1) (2 ^ 64 - 1) (2 ^ 64 - 1) true ≡ (ℤ.negsuc 0, 2 ^ 64 - 1)
set_process_limits-large_example =
    set_process_limits-large 1 (2 ^ 64 - 1) (2 ^ 64 - 1) true (omega arith) (omega arith)

abbrev machine : Machine
machine = record {
  read_file = λ name. none;
  load_ok = true;
  cipher_ok = true;
  cpu_count = 4;
  rlim_cur = 1024;
  rlim_max = 1024;
  set_ok = true;
  init_file = λ name. true;
  init_one = λ url. true;
}

abbrev ten : Options
ten = record default_options { num_connections = ℤ.pos 10 }

start_threads-total_example :
    (k : ℕ) × (ts : List ThreadSetup) × (done : Bool) × (thread_count ten 4 ≡ ℤ.pos k)
    × (start_threads machine ten (thread_count ten 4) k 0 ≡ some (ts, done))
    × All (λ t. 0 < positive_part t.num_connections) ts
    × (done ≡ true → (length ts ≡ k) × (connections ts ≡ 10))
start_threads-total_example = start_threads-total machine ten 10 4 refl (omega arith) (omega arith)

abbrev nothing_once : Options
nothing_once = record default_options { num_connections = ℤ.pos 0; just_once = true }

run-no_connections_example : run machine nothing_once ≡ none
run-no_connections_example = run-no_connections machine nothing_once refl refl (omega arith)

abbrev no_number : Bytes → Option ℤ
no_number text = none

-- "-c many http://h"
main-refused_example :
    (out : Outcome) × (main no_number
        (λ t. t)
        machine
        ((b'c', codes "many") ∷ [])
        (codes "http://h" ∷ [])
      ≡ some out)
    × RunsNothing out
main-refused_example =
    main-refused no_number (λ t. t) machine ((b'c', codes "many") ∷ []) (codes "http://h" ∷ []) refl
