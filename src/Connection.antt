-- ===== src/Connection.antt =====
-- The ConnectionState of apib/apib_iothread.h, apib/apib_iothread.cc and apib/apib_io_basic.cc: one
-- connection as a state machine, a handler for each callback of libev. The answers of the system,
-- of the socket and of http_parser (third_party/http_parser) are arguments. A handler gives `none`
-- where an assertion of the code fails. The output of `verbose` is left out.
pub mod Request
pub mod Events
pub mod Phases
pub mod Alive
pub mod Io
pub mod Writing
pub mod Reading
pub mod Sending
pub mod Frame
pub mod Room
pub mod Life
pub mod Winding
pub mod Counting
pub mod Stopping
mod Tests
use apib.Prelude.{
  ℕ, zero, suc, ◌+◌, ◌-◌, ◌/◌, ◌%◌, Bool, true, false, not, ◌&&◌, ◌||◌, Option, none, some, List,
  [], ◌∷◌, ◌++◌, Bytes, codes, length, drop, ◌==◌, if◌then◌else◌,
}
use apib.Status.{Status, StatusOr}
use apib.Oauth.{to_string}
use apib.Url.{UrlInfo}
use apib.Thread.{Counters}

-- IOStatus of apib/socket.h
pub data IoStatus : Type 0 where
  ok need_read need_write feof : IoStatus

pub data Direction : Type 0 where
  for_read for_write : Direction

-- the callback of the watcher io_
pub data Handler : Type 0 where
  write_ready read_ready complete_shutdown : Handler

pub record Watcher : Type 0 where
  pub handler : Handler
  pub direction : Direction
  pub active : Bool

-- The fields of IOThread that its caller sets and that a connection reads. `oauth` says whether
-- there is a key; a null pointer for the headers is the empty list.
pub record ThreadConf : Type 0 where
  pub http_verb : Bytes
  pub send_data : Bytes
  pub oauth : Bool
  pub headers : List Bytes
  pub headers_set : ℕ
  pub think_time : ℕ
  pub no_keep_alive : Bool
  pub keep_running : Bool
  pub index : ℕ

-- What http_parser answers: the bytes parsed, whether there is an error, and whether it called
-- on_message_complete.
pub record Parsed (P : Type 0) : Type 0 where
  pub parser : P
  pub parsed : ℕ
  pub failed : Bool
  pub complete : Bool

pub record HttpParser (P : Type 0) : Type 0 where
  pub init : P
  pub execute : P → Bytes → Parsed P
  pub status_code : P → ℕ
  pub should_keep_alive : P → Bool

-- A connection. `url_id` is the pointer to the URL, `timer` the delay of the running timer in
-- milliseconds, `unparsed` the first readBufPos_ bytes of the read buffer; `stats`, `opened` and
-- `socket_errors` are what it adds to the counters of the thread and of the reports.
pub record Connection (P : Type 0) : Type 0 where
  pub keep_running : Bool
  pub has_socket : Bool
  pub backwards_io : Bool
  pub io : Watcher
  pub timer : Option ℕ
  pub url : UrlInfo
  pub url_id : ℕ
  pub write_dirty : Bool
  pub write_buf : Bytes
  pub full_write : Bytes
  pub full_write_pos : ℕ
  pub unparsed : Bytes
  pub parser : P
  pub read_done : Bool
  pub needs_open : Bool
  pub start_time : ℕ
  pub stats : Counters
  pub opened : ℕ
  pub socket_errors : ℕ

-- What the system answers within one event: each is asked for at most once. The clock gives `now`
-- where a result is recorded and `start` where a request starts.
pub record Answers : Type 0 where
  pub now : ℕ
  pub start : ℕ
  pub connect : Status
  pub close : StatusOr IoStatus
  pub next_url : UrlInfo
  pub next_id : ℕ
  pub auth_header : Bytes

-- the bits of headersSet
abbrev pub host_set : ℕ
host_set = 1

abbrev pub content_length_set : ℕ
content_length_set = 2

abbrev pub content_type_set : ℕ
content_type_set = 4

abbrev pub connection_set : ℕ
connection_set = 16

abbrev pub user_agent_set : ℕ
user_agent_set = 32

abbrev pub is_set : ℕ → ℕ → Bool
is_set headers_set bit = (headers_set / bit) % 2 == 1

abbrev pub crlf : Bytes
crlf = 13 ∷ 10 ∷ []

abbrev pub unless : Bool → Bytes → Bytes
unless b text = if b then [] else text

abbrev pub header_lines : List Bytes → Bytes
header_lines [] = []
header_lines (h ∷ hs) = h ++ (crlf ++ header_lines hs)

-- Content-Type and Content-Length, for a body that is not empty
abbrev pub body_headers : ThreadConf → Bytes → Bytes
body_headers conf [] = []
body_headers conf (b ∷ body) =
    unless (is_set conf.headers_set content_type_set) (codes "Content-Type: text/plain" ++ crlf)
    ++ unless (is_set conf.headers_set content_length_set)
        (codes "Content-Length: " ++ (to_string (length (b ∷ body)) ++ crlf))

-- the text that writeRequest sends to its stream
unfoldable pub request : ThreadConf → UrlInfo → Bytes → Bytes
request conf url auth_header =
    (conf.http_verb ++ (codes " " ++ (url.path ++ (codes " HTTP/1.1" ++ crlf))))
    ++ (unless (is_set conf.headers_set user_agent_set) (codes "User-Agent: apib" ++ crlf)
        ++ (unless (is_set conf.headers_set host_set) (codes "Host: " ++ (url.host_header ++ crlf))
            ++ (body_headers conf conf.send_data
                ++ (unless (not conf.oauth) (auth_header ++ crlf)
                    ++ (unless (not conf.no_keep_alive || is_set conf.headers_set connection_set)
                          (codes "Connection: close" ++ crlf)
                        ++ (header_lines conf.headers ++ (crlf ++ conf.send_data)))))))

-- what a string stream holds when its position was set to 0 and `text` was written: what it held
-- behind the end of `text` stays
abbrev pub rewrite : Bytes → Bytes → Bytes
rewrite held text = text ++ drop (length text) held

unfoldable pub write_request : {P : Type 0} → ThreadConf → Answers → Connection P → Connection P
unfolding request
write_request conf a c =
    if not c.write_dirty && not conf.oauth
    then record c { full_write_pos = 0 }
    else (let text = rewrite c.write_buf (request conf c.url a.auth_header) in
        record c { write_buf = text; full_write = text; full_write_pos = 0; write_dirty = false })
