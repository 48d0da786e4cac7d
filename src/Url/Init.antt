-- ===== src/Url/Init.antt =====
-- apib/apib_url.cc, URLInfo::init: the port and the Host header of a URL that was accepted.
use apib.Prelude.{
  ℕ, ◌≡◌, ◌≢◌, ◌↔◌, refl, sym, ap, Bool, true, false, Option, none, some, ◌∷◌, ◌++◌, Bytes, length,
  length-append, ◌==◌, arith, subst, inl, inr, Bool-cases,
}
use apib.Status.{StatusOr}
use apib.Oauth.{to_string}
use apib.Url.{
  UrlParts, Outside, UrlInfo, init, with_parts, with_host, with_scheme, fill, header_of,
  default_port,
}

-- How a URL that was accepted came about.
record Filled (o : Outside) (urlstr : Bytes) (url : UrlInfo) : Type 0 where
  parts : UrlParts
  tls : Bool
  host : ℕ × ℕ
  filled : url ≡ fill o urlstr parts tls host

with_scheme-Filled :
    (o : Outside) (urlstr : Bytes) (pu : UrlParts) (host : ℕ × ℕ) (s : Option Bool) (url : UrlInfo)
    → with_scheme o urlstr pu host s ≡ StatusOr.value url
    → Filled o urlstr url
with_scheme-Filled o urlstr pu host none url h = cc
with_scheme-Filled o urlstr pu host (some tls) url h = record {
  parts = pu;
  tls = tls;
  host = host;
  filled = cc;
}

with_host-Filled :
    (o : Outside) (urlstr : Bytes) (pu : UrlParts) (schema host : Option (ℕ × ℕ)) (url : UrlInfo)
    → with_host o urlstr pu schema host ≡ StatusOr.value url
    → Filled o urlstr url
with_host-Filled o urlstr pu (some s) (some h) url e = with_scheme-Filled o urlstr pu h _ url e
with_host-Filled o urlstr pu none _ url e = cc
with_host-Filled o urlstr pu (some s) none url e = cc

with_parts-Filled :
    (o : Outside) (urlstr : Bytes) (p : Option UrlParts) (url : UrlInfo)
    → with_parts o urlstr p ≡ StatusOr.value url
    → Filled o urlstr url
with_parts-Filled o urlstr none url e = cc
with_parts-Filled o urlstr (some pu) url e = with_host-Filled o urlstr pu pu.schema pu.host url e

longer : (xs : Bytes) (y : ℕ) (ys : Bytes) → xs ++ (y ∷ ys) ≢ xs
longer xs y ys e = omega (arith, ap length e, length-append xs (y ∷ ys))

header_of-default :
    (tls : Bool) (port : ℕ) (host : Bytes)
    → (header_of tls port host ≡ host) ↔ (port ≡ default_port tls)
header_of-default true port host = elim (Bool-cases (port == 443)) [
  | inl same ↦ rw same (λ _. ground arith, λ _. refl)
  | inr other ↦ rw other (λ e. absurd (longer host b':' (to_string port) e), λ e. ground arith)
]
header_of-default false port host = elim (Bool-cases (port == 80)) [
  | inl same ↦ rw same (λ _. ground arith, λ _. refl)
  | inr other ↦ rw other (λ e. absurd (longer host b':' (to_string port) e), λ e. ground arith)
]

-- For a URL that init accepts, the Host header leaves the port away exactly if it is the default
-- port of the scheme.
pub init-host_header :
    (o : Outside) (urlstr : Bytes) (url : UrlInfo)
    → init o urlstr ≡ StatusOr.value url
    → (url.host_header ≡ url.host_name) ↔ (url.port ≡ default_port url.is_ssl)
unfolding init
init-host_header o urlstr url h =
    let f = with_parts-Filled o urlstr (o.parse_url urlstr) url h in
    subst (λ u. (u.host_header ≡ u.host_name) ↔ (u.port ≡ default_port u.is_ssl)) (sym f.filled)
      (header_of-default f.tls _ _)
