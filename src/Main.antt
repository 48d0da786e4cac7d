-- ===== src/Main.antt =====
-- apib/apib_main.cc: what the main program gives its threads, how it waits, and what it keeps of the
-- headers. The options of the command line are arguments.
pub mod Split
pub mod Waiting
pub mod Headers
pub mod Options
pub mod Run
pub mod Program
mod Tests
use apib.Prelude.{
  ℕ, zero, suc, ◌+◌, ◌-◌, ◌/◌, ◌%◌, Bool, Option, none, some, List, [], ◌∷◌, ◌++◌, Bytes, codes,
  ltb, if◌then◌else◌, ◌>>=◌,
}
use apib.Util.{eqcase}
use apib.Oauth.{OauthInfo, str_split}
use apib.Connection.{
  is_set, host_set, content_length_set, content_type_set, connection_set, user_agent_set,
}

-- numConn of initializeThread
unfoldable pub num_conn : ℕ → ℕ → ℕ → ℕ
num_conn num_connections num_threads ix =
    let num_conn = num_connections / num_threads in
    if ltb ix (num_connections % num_threads) then suc num_conn else num_conn

-- the verb of initializeThread
unfoldable pub http_verb : Bytes → Bytes → Bytes
http_verb [] [] = codes "GET"
http_verb [] (c ∷ file_name) = codes "POST"
http_verb (c ∷ verb) file_name = c ∷ verb

abbrev pub report_sleep_time : ℕ
report_sleep_time = 5

-- the loop of waitAndReport: the seconds of each sleep, behind each of which a report is made;
-- `none`: no rounds left
unfoldable pub wait_loop : ℕ → ℕ → Option (List ℕ)
wait_loop zero duration_left = none
wait_loop (suc rounds) duration_left =
    let to_sleep =
      if ltb duration_left report_sleep_time then duration_left else report_sleep_time in
    let rest = wait_loop rounds (duration_left - to_sleep) in
    if ltb 0 duration_left then (rest >>= λ s. some (to_sleep ∷ s)) else some []

-- waitAndReport; each round takes a second at least
unfoldable pub wait_and_report : ℕ → Option (List ℕ)
wait_and_report duration = wait_loop (suc duration) duration

-- SetHeaders and Headers
pub record HeaderOptions : Type 0 where
  pub set_headers : ℕ
  pub headers : List Bytes

abbrev pub authorization_set : ℕ
authorization_set = 8

-- `set |= bit`, for one bit
abbrev pub set_bit : ℕ → ℕ → ℕ
set_bit set bit = if is_set set bit then set else set + bit

-- the bit of the header of this name, or 0
unfoldable pub header_bit : Bytes → ℕ
header_bit name =
    if eqcase name (codes "Host")
    then host_set
    else if eqcase name (codes "Content-Length")
    then content_length_set
    else if eqcase name (codes "Content-Type")
    then content_type_set
    else if eqcase name (codes "Authorization")
    then authorization_set
    else if eqcase name (codes "Connection")
    then connection_set
    else if eqcase name (codes "User-Agent")
    then user_agent_set
    else 0

abbrev pub mark : ℕ → ℕ → ℕ
mark set zero = set
mark set (suc bit) = set_bit set (suc bit)

-- addHeader; a split has one piece at least
unfoldable pub add_header : HeaderOptions → Bytes → HeaderOptions
add_header h val = record {
  set_headers = mark h.set_headers (header_bit (str_split b':' val).0);
  headers = h.headers ++ (val ∷ []);
}

-- processBasic, for the text that the encoder gives
unfoldable pub process_basic : HeaderOptions → Bytes → HeaderOptions
process_basic h b64 = add_header h (codes "Authorization: Basic " ++ b64)

abbrev piece : List Bytes → ℕ → Bytes
piece [] n = []
piece (p ∷ ps) zero = p
piece (p ∷ ps) (suc n) = piece ps n

-- processOAuth
unfoldable pub process_oauth : HeaderOptions → Bytes → OauthInfo × HeaderOptions
process_oauth h arg =
    let (first, more) = str_split b':' arg in
    (
      record {
        consumer_key = first;
        consumer_secret = piece more 0;
        access_token = piece more 1;
        token_secret = piece more 2;
      },
      record h { set_headers = set_bit h.set_headers authorization_set },
    )
