-- ===== src/Connection/Tests.antt =====
-- The theorems on connections at a concrete connection, for a parser that is done at once.
use apib.Prelude.{
  Bool, ◌≡◌, ◌≢◌, ◌≤◌, ◌>>=◌, refl, Option, List, true, false, some, none, Bytes, codes, [], ◌∷◌,
  ◌++◌, arith, length, drop, replicate, inl, equal,
}
use apib.Status.{ok_status, StatusOr}
use apib.Addresses.{Family, Address, get, set_port, same_address}
use apib.Url.{UrlInfo, address, is_same_server}
use apib.Thread.{record_result, new_counters}
use apib.Connection.{
  IoStatus, Direction, Handler, ThreadConf, HttpParser, Connection, Answers, request, write_request,
}
use apib.Connection.Events.{
  single_read, stop_io, read_ready, read_done, write_done, write_ready, stop_running,
}
use apib.Connection.Request.{write_request-longer, write_request-stale}
use apib.Connection.Phases.{Idle, Goes, Known}
use apib.Connection.Writing.{would_block, write_ready-Goes}
use apib.Connection.Reading.{Consumes, Got, ReadsFit}
use apib.Connection.Sending.{moved, write_ready-pieces}
use apib.Connection.Counting.{read_done-outcome}
use apib.Connection.Stopping.{Sends, read_done-stop_running}

abbrev pub parser : HttpParser Unit
parser = record {
  init = tt;
  execute = λ p text. record { parser = tt; parsed = length text; failed = false; complete = true };
  status_code = λ p. 200;
  should_keep_alive = λ p. true;
}

abbrev pub conf : ThreadConf
conf = record {
  http_verb = codes "GET";
  send_data = [];
  oauth = false;
  headers = [];
  headers_set = 0;
  think_time = 0;
  no_keep_alive = false;
  keep_running = true;
  index = 0;
}

abbrev pub host : Address
host = record { family = Family.inet; body = replicate 126 0 }

abbrev pub host_80 : Address
host_80 = record { family = Family.inet; body = 0 ∷ 80 ∷ replicate 124 0 }

abbrev pub url : UrlInfo
url = record {
  port = 80;
  is_ssl = false;
  path = codes "/";
  path_only = codes "/";
  query = [];
  host_name = codes "a";
  host_header = codes "a";
  lookup_status = ok_status;
  addresses = host ∷ [];
}

abbrev pub answers : Answers
answers = record {
  now = 9;
  start = 10;
  connect = ok_status;
  close = StatusOr.value IoStatus.need_read;
  next_url = url;
  next_id = 2;
  auth_header = [];
}

-- within an event, with `held` in its stream
abbrev pub connection : Bytes → Connection Unit
connection held = record {
  keep_running = true;
  has_socket = true;
  backwards_io = false;
  io = record { handler = Handler.read_ready; direction = Direction.for_read; active = false };
  timer = none;
  url = url;
  url_id = 1;
  write_dirty = true;
  write_buf = held;
  full_write = [];
  full_write_pos = 0;
  unparsed = [];
  parser = tt;
  read_done = false;
  needs_open = false;
  start_time = 4;
  stats = new_counters;
  opened = 1;
  socket_errors = 0;
}

pub connection-Idle : Idle (connection [])
connection-Idle = record { stopped = refl; no_timer = refl; socket = inl refl; can_send = λ h. cc }

pub parser-Consumes : Consumes parser
parser-Consumes p text pos good = pos

pub resolves : address url conf.index ≡ some host_80
unfolding address get set_port
resolves = refl

same_server : is_same_server url url conf.index ≡ some true
unfolding is_same_server address get set_port same_address equal
same_server = refl

pub known : Known conf url url
known = record {
  old = host_80;
  old_is = resolves;
  new = host_80;
  new_is = resolves;
  same = true;
  same_is = same_server;
}

write_request-longer_example :
    let s = write_request conf answers (connection []) in
    (s.full_write ≡ request conf url []) × (s.full_write_pos ≡ 0) × (s.write_dirty ≡ false)
write_request-longer_example = write_request-longer conf answers (connection []) refl (omega arith)

write_request-stale_example :
    let text = request conf url [] in
    let s = write_request conf answers (connection (replicate 80 b'x')) in
    (s.full_write ≡ text ++ drop (length text) (replicate 80 b'x')) × (s.full_write ≢ text)
unfolding request
write_request-stale_example =
    write_request-stale conf answers (connection (replicate 80 b'x')) refl (omega arith)

abbrev pub thinking : Connection Unit
thinking = record (connection []) { timer = some 5 }

abbrev pub closing : Connection Unit
closing = record (connection []) {
  io = record {
    handler = Handler.complete_shutdown;
    direction = Direction.for_read;
    active = true;
  };
  needs_open = true;
}

abbrev pub writing : Connection Unit
writing = record (connection []) {
  io = record { handler = Handler.write_ready; direction = Direction.for_write; active = true };
  full_write = codes "GET / HTTP/1.1";
  write_dirty = false;
}

write_ready-Goes_example : Goes conf (
    write_ready parser conf answers
      ((StatusOr.value IoStatus.ok, 4) ∷ (StatusOr.value IoStatus.ok, 10) ∷ would_block ∷ [])
      writing)
write_ready-Goes_example =
    write_ready-Goes parser conf answers writing
      ((StatusOr.value IoStatus.ok, 4) ∷ (StatusOr.value IoStatus.ok, 10) ∷ []) host_80
      (record {
        active = refl;
        no_timer = refl;
        socket = refl;
        directed = refl;
        unsent = λ h. omega arith;
        can_send = λ h. omega arith;
        reopens = λ h. cc;
      })
      refl resolves (omega arith, (omega arith, tt))

read_done-stop_running_example :
    Sends parser conf answers
      (read_done parser conf answers false (stop_running parser conf (connection [])))
read_done-stop_running_example =
    read_done-stop_running parser conf answers (connection []) refl refl refl refl refl same_server

read_done-outcome_example :
    (d : Connection Unit) × (read_done parser conf answers false (connection []) ≡ some d)
    × (d.stats ≡ record {
      successful_requests = 1;
      failed_requests = 0;
      latencies = 5 ∷ [];
      bytes_read = 0;
      bytes_written = 0;
    })
unfolding record_result
read_done-outcome_example =
    read_done-outcome parser conf answers (connection []) false connection-Idle refl known

write_ready-pieces_example :
    write_ready parser conf answers
      ((StatusOr.value IoStatus.ok, 4) ∷ (StatusOr.value IoStatus.ok, 10) ∷ [])
      writing
    ≡ write_done parser conf answers false
        (stop_io parser conf (moved parser conf answers writing 14))
write_ready-pieces_example =
    write_ready-pieces parser conf answers writing (4 ∷ 10 ∷ []) [] refl (omega arith)
      (omega arith, (omega arith, tt)) refl

abbrev pub reading : Connection Unit
reading = record (connection []) {
  io = record { handler = Handler.read_ready; direction = Direction.for_read; active = true };
}

abbrev ended : Connection Unit → Option (Bool × Connection Unit)
ended d = some (false, d)

not_on : (r : Option (Connection Unit)) (d : Connection Unit) → (r >>= ended) ≡ some (true, d) → ⊥
not_on none d h = cc
not_on (some e) d h = cc

-- the first read ends the loop: the parser is done
pub reads_once :
    (k : ThreadConf) (text : Bytes) (gs : List Got)
    → length text ≤ 8192
    → ReadsFit parser k answers ((StatusOr.value IoStatus.ok, text) ∷ gs) reading
unfolding single_read
reads_once k text gs fits =
    (omega arith, λ d e. absurd (not_on (read_done parser k answers false _) d e))
