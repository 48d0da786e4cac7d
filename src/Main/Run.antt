-- ===== src/Main/Run.antt =====
-- apib/apib_main.cc: what main does with the options of the command line, the limit of descriptors,
-- the number of threads, what each thread is given, and the order of a run. What the system,
-- OpenSSL, the files and the URLs answer is given.
pub mod Threads
pub mod Limits
use apib.Prelude.{
  ℕ, zero, suc, ◌+◌, ◌-◌, ◌/◌, ◌%◌, ◌^◌, Bool, true, false, not, ◌&&◌, ◌||◌, Option, none, some,
  List, [], ◌∷◌, ◌++◌, Bytes, codes, length, ltb, leb, ◌==◌, equal, if◌then◌else◌, ◌>>=◌,
}
use apib.Prelude.Int.{ℤ, as_int, ◌+ℤ◌, ◌-ℤ◌, positive_part, negative_part, is_at_most_zero}
use apib.Oauth.{OauthInfo}
use apib.Main.{HeaderOptions, add_header, http_verb, wait_and_report}
use apib.Main.Options.{Options, Parsing, parse_options}

-- `a < b` of two ints
abbrev pub less_int : ℤ → ℤ → Bool
less_int (ℤ.pos m) (ℤ.pos n) = ltb m n
less_int (ℤ.pos m) (ℤ.negsuc n) = false
less_int (ℤ.negsuc m) (ℤ.pos n) = true
less_int (ℤ.negsuc m) (ℤ.negsuc n) = ltb n m

-- setProcessLimits, for what getrlimit says and whether setrlimit succeeds: the result, and the
-- soft limit behind it
unfoldable pub set_process_limits : ℤ → ℕ → ℕ → Bool → ℤ × ℕ
set_process_limits num_connections rlim_cur rlim_max set_ok =
    if less_int num_connections (as_int rlim_cur)
    then (ℤ.pos 0, rlim_cur)
    else if less_int num_connections (as_int rlim_max)
    then (if set_ok then (ℤ.pos 0, rlim_max) else (ℤ.negsuc 0, rlim_cur))
    else (ℤ.negsuc 0, rlim_cur)

-- the calls of createSslContext that depend on the options
pub data SslCall : Type 0 where
  verify_peer info_callback : SslCall
  load_locations cipher_list : Bytes → SslCall

abbrev pub given : Bytes → Bool
given [] = false
given (c ∷ cs) = true

-- createSslContext, for whether OpenSSL takes the file and the list of ciphers
unfoldable pub create_ssl_context : Bool → Bytes → Bool → Bytes → Bool → Bool → ℤ × List SslCall
create_ssl_context verify certificate verbose cipher load_ok cipher_ok =
    let start = if verify then SslCall.verify_peer ∷ [] else [] in
    let loaded =
      if given certificate then start ++ (SslCall.load_locations certificate ∷ []) else start in
    let called = if verbose then loaded ++ (SslCall.info_callback ∷ []) else loaded in
    if given certificate && not load_ok
    then (ℤ.negsuc 1, loaded)
    else if given cipher
    then (if cipher_ok then ℤ.pos 0 else ℤ.negsuc 0, called ++ (SslCall.cipher_list cipher ∷ []))
    else (ℤ.pos 0, called)

abbrev pub magnitude : ℤ → ℕ
magnitude z = positive_part z + negative_part z

abbrev pub is_negative : ℤ → Bool
is_negative (ℤ.pos n) = false
is_negative (ℤ.negsuc n) = true

abbrev pub signed : Bool → ℕ → ℤ
signed negative zero = ℤ.pos 0
signed negative (suc n) = if negative then ℤ.negsuc n else ℤ.pos (suc n)

-- numConn of initializeThread on ints, whose division goes towards zero; `none`: a division by zero
unfoldable pub num_conn_int : ℤ → ℤ → ℕ → Option ℤ
num_conn_int num_connections num_threads ix =
    let m = magnitude num_connections in
    let n = magnitude num_threads in
    let negative = is_negative num_connections in
    let quotient = signed (if is_negative num_threads then not negative else negative) (m / n) in
    if n == 0
    then none
    else some
        (if less_int (ℤ.pos ix) (signed negative (m % n)) then quotient +ℤ ℤ.pos 1 else quotient)

-- what initializeThread sets in an IOThread
pub record ThreadSetup : Type 0 where
  pub index : ℕ
  pub http_verb : Bytes
  pub send_data : Bytes
  pub keep_running : ℤ
  pub num_connections : ℤ
  pub verbose : Bool
  pub ssl_cipher : Bytes
  pub headers : List Bytes
  pub headers_set : ℕ
  pub think_time : ℤ
  pub no_keep_alive : Bool
  pub oauth : Option OauthInfo

pub data Initialized : Type 0 where
  ready : ThreadSetup → Initialized
  error : ℤ → Initialized

-- What is outside of main: the file to send, whether OpenSSL takes the options, cpu_Count, the
-- limits of the process, and whether the URLs can be read.
pub record Machine : Type 0 where
  pub read_file : Bytes → Option Bytes
  pub load_ok : Bool
  pub cipher_ok : Bool
  pub cpu_count : ℕ
  pub rlim_cur : ℕ
  pub rlim_max : ℕ
  pub set_ok : Bool
  pub init_file : Bytes → Bool
  pub init_one : Bytes → Bool

-- readFile, if there is a file
abbrev pub file_data : (Bytes → Option Bytes) → Bytes → Option Bytes
file_data read_file [] = some []
file_data read_file (c ∷ name) = read_file (c ∷ name)

abbrev pub after_ssl : ThreadSetup → ℤ → Initialized
after_ssl t (ℤ.pos zero) = Initialized.ready t
after_ssl t code = Initialized.error code

-- the rest of initializeThread, behind readFile
abbrev pub set_up : Machine → Options → ℕ → ℤ → Option Bytes → Initialized
set_up m o ix num_conn none = Initialized.error (ℤ.pos 3)
set_up m o ix num_conn (some send_data) =
    after_ssl
      (record {
        index = ix;
        http_verb = http_verb o.verb o.file_name;
        send_data = send_data;
        keep_running = if o.just_once then ℤ.negsuc 0 else ℤ.pos 1;
        num_connections = num_conn;
        verbose = o.verbose;
        ssl_cipher = o.ssl_cipher;
        headers = o.header.headers;
        headers_set = o.header.set_headers;
        think_time = o.think_time;
        no_keep_alive = not (is_minus_one o.keep_alive);
        oauth = o.oauth;
      })
      (create_ssl_context o.ssl_verify o.ssl_certificate o.verbose o.ssl_cipher m.load_ok
        m.cipher_ok).0
  where
    is_minus_one : ℤ → Bool
    is_minus_one (ℤ.pos n) = false
    is_minus_one (ℤ.negsuc n) = n == 0

-- initializeThread; `none`: a division by zero
unfoldable pub initialize_thread : Machine → Options → ℤ → ℕ → Option Initialized
initialize_thread m o num_threads ix = num_conn_int o.num_connections num_threads ix >>= λ num_conn.
    some (set_up m o ix num_conn (file_data m.read_file o.file_name))

-- NumThreads, as main settles it
unfoldable pub thread_count : Options → ℕ → ℤ
thread_count o cpu_count =
    let asked = if less_int o.num_threads (ℤ.pos 1) then ℤ.pos cpu_count else o.num_threads in
    if less_int o.num_connections asked then o.num_connections else asked
