-- ===== src/Url/Tests.antt =====
-- The theorems on URLs at concrete inputs.
use apib.Prelude.{
  ℕ, ◌≡◌, ◌↔◌, refl, Bool, true, false, Option, some, none, codes, List, [], ◌∷◌, ◌==◌, arith,
  All-none, replicate, equal,
}
use apib.Status.{ok_status, StatusOr}
use apib.Oauth.{to_string}
use apib.Addresses.{Family, Address}
use apib.Url.{UrlParts, Outside, UrlInfo, Urls, empty_urls, init, init_file, get_next}
use apib.Lines.Stream.Spec.{lines}
use apib.Url.File.{added}
use apib.Url.LongFile.{has_run-NoRuns, init_file-all_lines}
use apib.Lines.{is_char}
use apib.Url.Init.{init-host_header}
use apib.Url.Select.{Picks, get_next-Picks}

-- "http://a:90": the parts that the parser finds in it
abbrev parts : UrlParts
parts = record {
  schema = some (0, 4);
  host = some (7, 1);
  path = none;
  query = none;
  fragment = none;
  port = some 90;
}

-- an address that a name resolves to
abbrev host : Address
host = record { family = Family.inet; body = replicate 126 0 }

abbrev outside : Outside
outside = record {
  parse_url = λ s. if_some (equal s (codes "http://a:90"));
  lookup = λ name. StatusOr.value (host ∷ []);
}
  where
    if_some : Bool → Option UrlParts
    if_some true = some parts
    if_some false = none

init_file-all_lines_example :
    init_file outside empty_urls
      (replicate 8192 0)
      (codes "urls")
      (some (codes "http://a:90\nhttp://b"))
    ≡ some (added outside (lines (codes "http://a:90\nhttp://b")).0 [])
unfolding lines is_char
init_file-all_lines_example =
    init_file-all_lines outside (replicate 8192 0) (codes "urls") (codes "http://a:90\nhttp://b")
      refl (All-none (λ c. c == 0) (codes "http://a:90\nhttp://b") refl)
      (has_run-NoRuns (codes "http://a:90\nhttp://b") refl) ((omega arith, tt), omega arith)

abbrev url : List Address → UrlInfo
url addresses = record {
  port = 90;
  is_ssl = false;
  path = codes "/";
  path_only = codes "/";
  query = [];
  host_name = codes "a";
  host_header = codes "a:90";
  lookup_status = ok_status;
  addresses = addresses;
}

init-host_header_example : (codes "a:90" ≡ codes "a") ↔ ◌≡◌ {A = ℕ} 90 80
unfolding init equal to_string
init-host_header_example = init-host_header outside (codes "http://a:90") (url (host ∷ [])) refl

abbrev two_urls : Urls
two_urls = record { urls = url (host ∷ []) ∷ url [] ∷ []; initialized = true }

get_next-Picks_example : Picks (λ a b. b) two_urls.urls (get_next (λ a b. b) two_urls)
get_next-Picks_example = get_next-Picks (λ a b. b) two_urls (λ a b h. (h, omega arith))

abbrev host_90 : Address
host_90 = record { family = Family.inet; body = 0 ∷ 90 ∷ replicate 124 0 }
