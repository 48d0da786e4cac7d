-- ===== src/Main/Options.antt =====
-- apib/apib_main.cc: the options of the command line, as getopt_long hands them out one at a time.
-- What getopt_long, absl::SimpleAtoi and the encoder of third_party/base64 answer is given.
pub mod Errors
use apib.Prelude.{
  ℕ, Bool, true, false, ◌||◌, Option, none, some, List, [], ◌∷◌, ◌++◌, Bytes, codes, ◌==◌,
  if◌then◌else◌,
}
use apib.Prelude.Int.{ℤ}
use apib.Oauth.{OauthInfo}
use apib.Main.{HeaderOptions, add_header, process_basic, process_oauth}

-- the statics of the file, and the variables of main
pub record Options : Type 0 where
  pub short_output : Bool
  pub run_name : Bytes
  pub num_connections : ℤ
  pub num_threads : ℤ
  pub just_once : Bool
  pub keep_alive : ℤ
  pub verb : Bytes
  pub file_name : Bytes
  pub content_type : Bytes
  pub ssl_cipher : Bytes
  pub ssl_verify : Bool
  pub ssl_certificate : Bytes
  pub verbose : Bool
  pub think_time : ℤ
  pub header : HeaderOptions
  pub oauth : Option OauthInfo
  pub duration : ℤ
  pub warmup_time : ℤ
  pub do_help : Bool
  pub do_version : Bool
  pub monitor_host : Bytes
  pub monitor2_host : Bytes
  pub failed : Bool

abbrev pub default_options : Options
default_options = record {
  short_output = false;
  run_name = [];
  num_connections = ℤ.pos 1;
  num_threads = ℤ.negsuc 0;
  just_once = false;
  keep_alive = ℤ.negsuc 0;
  verb = [];
  file_name = [];
  content_type = [];
  ssl_cipher = [];
  ssl_verify = false;
  ssl_certificate = [];
  verbose = false;
  think_time = ℤ.pos 0;
  header = record { set_headers = 0; headers = [] };
  oauth = none;
  duration = ℤ.pos 60;
  warmup_time = ℤ.pos 0;
  do_help = false;
  do_version = false;
  monitor_host = [];
  monitor2_host = [];
  failed = false;
}

-- One round of the loop: it goes on, prints the header of reports and returns, or aborts.
pub data Parsing : Type 0 where
  going : Options → Parsing
  header_line : Parsing
  aborted : Parsing

-- `if (!absl::SimpleAtoi(optarg, &x)) { failed = true; }`
abbrev pub number : Options → (ℤ → Options) → Option ℤ → Parsing
number o put none = Parsing.going (record o { failed = true })
number o put (some x) = Parsing.going (put x)

abbrev pub with_oauth : Options → OauthInfo × HeaderOptions → Options
with_oauth o (info, header) = record o { oauth = some info; header = header }

module _ (simple_atoi : Bytes → Option ℤ) (base64 : Bytes → Bytes) where
  -- the switch of main
  unfoldable pub apply_option : Options → ℕ → Bytes → Parsing
  apply_option o arg optarg =
      if arg == b'c'
      then number o (λ x. record o { num_connections = x }) (simple_atoi optarg)
      else if arg == b'd'
      then number o (λ x. record o { duration = x }) (simple_atoi optarg)
      else if arg == b'f'
      then Parsing.going (record o { file_name = optarg })
      else if arg == b'h'
      then Parsing.going (record o { do_help = true })
      else if arg == b'k'
      then number o (λ x. record o { keep_alive = x }) (simple_atoi optarg)
      else if arg == b't'
      then Parsing.going (record o { content_type = optarg })
      else if arg == b'u'
      then Parsing.going (record o { header = process_basic o.header (base64 optarg) })
      else if arg == b'v'
      then Parsing.going (record o { verbose = true })
      else if arg == b'w'
      then number o (λ x. record o { warmup_time = x }) (simple_atoi optarg)
      else if arg == b'x'
      then Parsing.going (record o { verb = optarg })
      else if arg == b'Z'
      then Parsing.going (record o { do_version = true })
      else if arg == b'C'
      then Parsing.going (record o { ssl_cipher = optarg })
      else if arg == b'F'
      then Parsing.going (record o { ssl_certificate = optarg })
      else if arg == b'H'
      then Parsing.going (record o { header = add_header o.header optarg })
      else if arg == b'K'
      then number o (λ x. record o { num_threads = x }) (simple_atoi optarg)
      else if arg == b'M'
      then Parsing.going (record o { monitor_host = optarg })
      else if arg == b'X'
      then Parsing.going (record o { monitor2_host = optarg })
      else if arg == b'N'
      then Parsing.going (record o { run_name = optarg })
      else if arg == b'O'
      then Parsing.going (with_oauth o (process_oauth o.header optarg))
      else if arg == b'S'
      then Parsing.going (record o { short_output = true })
      else if arg == b'T'
      then Parsing.header_line
      else if arg == b'V'
      then Parsing.going (record o { ssl_verify = true })
      else if arg == b'W'
      then number o (λ x. record o { think_time = x }) (simple_atoi optarg)
      else if arg == b'1'
      then Parsing.going (record o { just_once = true })
      else if arg == b'?' || arg == b':'
      then Parsing.going (record o { failed = true })
      else Parsing.aborted

  abbrev pub then_parse : (Options → Parsing) → Parsing → Parsing
  then_parse more (Parsing.going o) = more o
  then_parse more Parsing.header_line = Parsing.header_line
  then_parse more Parsing.aborted = Parsing.aborted

  -- the loop, for what getopt_long answers until it is done
  unfoldable pub parse_options : Options → List (ℕ × Bytes) → Parsing
  parse_options o [] = Parsing.going o
  parse_options o ((arg, optarg) ∷ args) =
      then_parse (λ o'. parse_options o' args) (apply_option o arg optarg)
