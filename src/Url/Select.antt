-- ===== src/Url/Select.antt =====
-- apib/apib_url.cc, URLInfo::GetNext and URLInfo::IsSameServer.
use apib.Prelude.{
  ℕ, ◌-◌, ◌<◌, ◌≤◌, ◌≡◌, refl, Bool, true, Option, none, some, List, [], ◌∷◌, length, get_or, arith,
  >>=-eq-some, get_elem?-eq-get_or,
}
use apib.Addresses.{Address, port, same_address}
use apib.Addresses.Laws.{same_address-port, IsInet}
use apib.Url.{UrlInfo, Urls, get_next, address, is_same_server}

-- What the generator promises: a number of the interval.
abbrev pub InRange : (ℕ → ℕ → ℕ) → Type 0
InRange pick = (a b : ℕ) → a ≤ b → (a ≤ pick a b) × (pick a b ≤ b)

abbrev pub Picks : (ℕ → ℕ → ℕ) → List UrlInfo → Option (Option UrlInfo) → Type 0
Picks pick [] r = r ≡ some none
Picks pick (url ∷ us) r =
    (i : ℕ) × (i < length (url ∷ us)) × (r ≡ some (some (get_or (url ∷ us) i url)))

picks :
    (pick : ℕ → ℕ → ℕ) (us : List UrlInfo) (b : Bool)
    → InRange pick
    → Picks pick us (get_next pick (record { urls = us; initialized = b }))
unfolding get_next
picks pick [] b h = refl
picks pick (url ∷ []) b h = (0, omega arith, refl)
picks pick (url ∷ v ∷ us) b h =
    let i = pick 0 (length (url ∷ v ∷ us) - 1) in
    let r = h 0 (length (url ∷ v ∷ us) - 1) (omega arith) in
    let k : i < length (url ∷ v ∷ us) = omega (arith, r.1) in
    (i, k, rw (get_elem?-eq-get_or (url ∷ v ∷ us) i url k) refl)

-- GetNext never reads out of range, for a generator that keeps to its interval: it gives an entry
-- of the list, and a null pointer only if the list is empty.
pub get_next-Picks :
    (pick : ℕ → ℕ → ℕ) (u : Urls) → InRange pick → Picks pick u.urls (get_next pick u)
get_next-Picks pick u h = picks pick u.urls u.initialized h

-- Two URLs that count as one server, the first with an address of the Internet, connect to
-- addresses of one family and one port.
is_same_server-port :
    (u1 u2 : UrlInfo) (sequence : ℕ) (a1 : Address)
    → address u1 sequence ≡ some a1
    → IsInet a1.family
    → is_same_server u1 u2 sequence ≡ some true
    → (a2 : Address) × (address u2 sequence ≡ some a2)
      × (a1.family ≡ a2.family)
      × (port a1 ≡ port a2)
unfolding is_same_server
is_same_server-port u1 u2 sequence a1 e i h =
    let (b1, f, h₁) = >>=-eq-some (address u1 sequence) _ h in
    let (a2, g, h₂) = >>=-eq-some (address u2 sequence) _ h₁ in
    let same : b1 ≡ a1 = cc in
    let h₃ : same_address a1 a2 ≡ some true = cc in
    let (family, ports) = same_address-port a1 a2 i h₃ in (a2, g, family, ports)
