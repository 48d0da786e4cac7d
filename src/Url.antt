-- ===== src/Url.antt =====
-- apib/apib_url.h and apib/apib_url.cc: the list of URLs under test. http_parser_parse_url
-- (third_party/http_parser) and the name lookup of the system are arguments.
pub mod Init
pub mod File
pub mod LongFile
pub mod Select
mod Tests
use apib.Prelude.{
  ℕ, zero, suc, ◌+◌, ◌-◌, Bool, true, false, not, ◌&&◌, ◌||◌, Option, none, some, List, [], ◌∷◌,
  ◌++◌, Bytes, codes, length, get_elem?, take, drop, ◌==◌, equal, if◌then◌else◌, ◌>>=◌,
}
use apib.Status.{Code, Status, ok_status, is_ok, StatusOr}
use apib.Addresses.{Address}
use apib.Addresses
use apib.Oauth.{to_string}
use apib.Lines.{LineState, of_size, next, line, consume, read_stream}

-- `http_parser_url`: offset and length of each part in `field_set`, and the value of the port.
pub record UrlParts : Type 0 where
  pub schema : Option (ℕ × ℕ)
  pub host : Option (ℕ × ℕ)
  pub path : Option (ℕ × ℕ)
  pub query : Option (ℕ × ℕ)
  pub fragment : Option (ℕ × ℕ)
  pub port : Option ℕ

-- What the code does not implement: the parser (none: its error) and the lookup of a host name.
pub record Outside : Type 0 where
  pub parse_url : Bytes → Option UrlParts
  pub lookup : Bytes → StatusOr (List Address)

pub record UrlInfo : Type 0 where
  pub port : ℕ
  pub is_ssl : Bool
  pub path : Bytes
  pub path_only : Bytes
  pub query : Bytes
  pub host_name : Bytes
  pub host_header : Bytes
  pub lookup_status : Status
  pub addresses : List Address

-- the statics of the class
pub record Urls : Type 0 where
  pub urls : List UrlInfo
  pub initialized : Bool

abbrev pub empty_urls : Urls
empty_urls = record { urls = []; initialized = false }

-- urlPart
abbrev pub url_part : Bytes → ℕ × ℕ → Bytes
url_part urlstr p = take p.1 (drop p.0 urlstr)

abbrev pub invalid_url : Bytes → Status
invalid_url msg = record { code = Code.invalid_url; msg = msg }

-- the scheme decides on TLS
abbrev pub scheme_ssl : Bytes → Option Bool
scheme_ssl s =
    if equal (codes "http") s
    then some false
    else if equal (codes "https") s
    then some true
    else none

abbrev pub default_port : Bool → ℕ
default_port is_ssl = if is_ssl then 443 else 80

abbrev pub port_or : Option ℕ → Bool → ℕ
port_or none is_ssl = default_port is_ssl
port_or (some p) is_ssl = p

abbrev pub path_or : Option (ℕ × ℕ) → Bytes → Bytes
path_or none urlstr = codes "/"
path_or (some p) urlstr = url_part urlstr p

abbrev pub part_or_empty : Option (ℕ × ℕ) → Bytes → Bytes
part_or_empty none urlstr = []
part_or_empty (some p) urlstr = url_part urlstr p

-- `mark` and the part, if it is there
abbrev pub with_mark : ℕ → Option (ℕ × ℕ) → Bytes → Bytes
with_mark mark none urlstr = []
with_mark mark (some p) urlstr = mark ∷ url_part urlstr p

abbrev pub header_of : Bool → ℕ → Bytes → Bytes
header_of is_ssl port host =
    if (is_ssl && port == 443) || (not is_ssl && port == 80)
    then host
    else host ++ (b':' ∷ to_string port)

abbrev lookup_status_of : StatusOr (List Address) → Status
lookup_status_of (StatusOr.value l) = ok_status
lookup_status_of (StatusOr.failed s) = s

abbrev addresses_of : StatusOr (List Address) → List Address
addresses_of (StatusOr.value l) = l
addresses_of (StatusOr.failed s) = []

-- the URL that `init` fills in, its scheme and host known
abbrev pub fill : Outside → Bytes → UrlParts → Bool → ℕ × ℕ → UrlInfo
fill o urlstr pu is_ssl host =
    let host_name = url_part urlstr host in
    let port = port_or pu.port is_ssl in
    let found = o.lookup host_name in
    record {
      port = port;
      is_ssl = is_ssl;
      path =
          (path_or pu.path urlstr ++ with_mark b'?' pu.query urlstr)
          ++ with_mark b'#' pu.fragment urlstr;
      path_only = path_or pu.path urlstr;
      query = part_or_empty pu.query urlstr;
      host_name = host_name;
      host_header = header_of is_ssl port host_name;
      lookup_status = lookup_status_of found;
      addresses = addresses_of found;
    }

abbrev with_scheme : Outside → Bytes → UrlParts → ℕ × ℕ → Option Bool → StatusOr UrlInfo
with_scheme o urlstr pu host none = StatusOr.failed (invalid_url (codes "Invalid scheme"))
with_scheme o urlstr pu host (some is_ssl) = StatusOr.value (fill o urlstr pu is_ssl host)

abbrev with_host : Outside → Bytes → UrlParts → Option (ℕ × ℕ) → Option (ℕ × ℕ) → StatusOr UrlInfo
with_host o urlstr pu (some schema) (some host) =
    with_scheme o urlstr pu host (scheme_ssl (url_part urlstr schema))
with_host o urlstr pu _ _ = StatusOr.failed (invalid_url urlstr)

abbrev with_parts : Outside → Bytes → Option UrlParts → StatusOr UrlInfo
with_parts o urlstr none = StatusOr.failed (invalid_url urlstr)
with_parts o urlstr (some pu) = with_host o urlstr pu pu.schema pu.host

-- URLInfo::init; a URL that fails is thrown away by its callers
unfoldable pub init : Outside → Bytes → StatusOr UrlInfo
init o urlstr = with_parts o urlstr (o.parse_url urlstr)

-- InitOne; its assertion is that nothing was initialised before
abbrev add_one : Urls → StatusOr UrlInfo → Status × Urls
add_one u (StatusOr.value url) =
    (ok_status, record { urls = u.urls ++ (url ∷ []); initialized = true })
add_one u (StatusOr.failed s) = (s, u)

unfoldable pub init_one : Outside → Urls → Bytes → Option (Status × Urls)
init_one o u urlstr = if u.initialized then none else some (add_one u (init o urlstr))

-- the inner loop of InitFile, with a round for each line: `failed` is its early return
pub data LoopEnd : Type 0 where
  through : List UrlInfo → LineState → LoopEnd
  returned : Status → List UrlInfo → LoopEnd

abbrev pub take_init :
    (LineState → List UrlInfo → Option LoopEnd)
    → LineState
    → List UrlInfo
    → StatusOr UrlInfo
    → Option LoopEnd
take_init more s urls (StatusOr.failed st) = some (LoopEnd.returned st urls)
take_init more s urls (StatusOr.value url) = more s (urls ++ (url ∷ []))

abbrev pub take_url :
    Outside
    → (LineState → List UrlInfo → Option LoopEnd)
    → List UrlInfo
    → Bool × LineState
    → Option LoopEnd
take_url o more urls (false, s) = some (LoopEnd.through urls s)
take_url o more urls (true, s) = line s >>= λ l. take_init more s urls (init o l)

unfoldable pub url_lines : Outside → ℕ → LineState → List UrlInfo → Option LoopEnd
url_lines o zero s urls = none
url_lines o (suc rounds) s urls = next s >>= take_url o (url_lines o rounds) urls

-- the outer loop, a round for each read that is not empty; `input` is what the stream still holds
abbrev pub after_read :
    (LineState → Bytes → Option (Status × Urls))
    → List UrlInfo
    → ℕ × LineState × Bytes
    → Option (Status × Urls)
after_read more us (zero, s, rest) = some (ok_status, record { urls = us; initialized = true })
after_read more us (suc rc, s, rest) = more s rest

abbrev pub after_lines :
    (LineState → Bytes → List UrlInfo → Option (Status × Urls))
    → Bytes
    → LoopEnd
    → Option (Status × Urls)
after_lines more input (LoopEnd.returned st us) =
    some (st, record { urls = us; initialized = false })
after_lines more input (LoopEnd.through us s) =
    after_read (λ t rest. more t rest us) us (read_stream (consume s).1 input)

unfoldable pub url_file_loop :
    Outside → ℕ → LineState → Bytes → List UrlInfo → Option (Status × Urls)
url_file_loop o zero s input urls = none
url_file_loop o (suc rounds) s input urls =
    url_lines o (suc s.buf_len) s urls >>= after_lines (url_file_loop o rounds) input

abbrev pub url_buf_len : ℕ
url_buf_len = 8192

-- InitFile; `file` is what the file holds (none: it cannot be opened), `memory` the new buffer
unfoldable pub init_file : Outside → Urls → Bytes → Bytes → Option Bytes → Option (Status × Urls)
init_file o u memory name none =
    if u.initialized then none else some (record { code = Code.io_error; msg = name }, u)
init_file o u memory name (some content) =
    if u.initialized
    then none
    else (let (rc, s, rest) = read_stream (of_size memory url_buf_len) content in
        url_file_loop o (suc (length content)) s rest u.urls)

-- GetNext: `pick min max` is what the generator gives; `none` outside is a read out of range
unfoldable pub get_next : (ℕ → ℕ → ℕ) → Urls → Option (Option UrlInfo)
get_next pick u = elim u.urls [
  | [] ↦ some none
  | url ∷ [] ↦ some (some url)
  | url ∷ v ∷ us ↦
      (get_elem? (url ∷ v ∷ us) (pick 0 (length (url ∷ v ∷ us) - 1)) >>= λ w. some (some w))
]

-- address(sequence)
unfoldable pub address : UrlInfo → ℕ → Option Address
address u sequence = Addresses.get u.addresses u.port sequence

unfoldable pub is_same_server : UrlInfo → UrlInfo → ℕ → Option Bool
unfolding address
is_same_server u1 u2 sequence =
    address u1 sequence >>= λ a1. address u2 sequence >>= λ a2. Addresses.same_address a1 a2

-- Reset()
unfoldable pub reset : Urls → Urls
reset u = empty_urls
