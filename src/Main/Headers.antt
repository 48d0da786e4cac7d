-- ===== src/Main/Headers.antt =====
-- apib/apib_main.cc, addHeader, with writeRequest of apib/apib_iothread.cc: a header of the command
-- line and the one that apib would send.
mod Bits
use apib.Prelude.{
  ℕ, zero, suc, ◌<◌, ◌^◌, ◌≡◌, refl, sym, ap, ◌∙◌, Bool, true, false, not, ◌&&◌, ◌||◌, Bool-cases,
  inl, inr, List, [], ◌∷◌, ◌++◌, map, append-nil, append_assoc, Bytes, codes, length, arith, ◌==◌,
  ◌⊎◌, ltb, ltb→lt, equal, equal_iff,
}
use apib.Util.{eqcase, eqcase_iff, to_lower, is_upper}
use apib.Oauth.{str_split, to_string}
use apib.Url.{UrlInfo}
use apib.Connection.{
  ThreadConf, is_set, host_set, content_length_set, content_type_set, connection_set,
  user_agent_set, request, crlf, unless, body_headers, header_lines,
}
use apib.Main.Headers.Bits.{mark-is_set, bits_row, bits_differ}
use apib.Main.{HeaderOptions, add_header, header_bit, mark}

-- the name of a header line
abbrev pub header_name : Bytes → Bytes
header_name val = (str_split b':' val).0

-- whether one of these lines has this name
abbrev pub names : List Bytes → Bytes → Bool
names [] name = false
names (v ∷ vs) name = eqcase (header_name v) name || names vs name

-- the options behind these `-H` arguments
abbrev pub add_headers : HeaderOptions → List Bytes → HeaderOptions
add_headers h [] = h
add_headers h (v ∷ vs) = add_headers (add_header h v) vs

abbrev pub no_headers : HeaderOptions
no_headers = record { set_headers = 0; headers = [] }

-- the names of the six bits
abbrev pub name_of : ℕ → Bytes
name_of zero = codes "Host"
name_of (suc zero) = codes "Content-Length"
name_of (suc (suc zero)) = codes "Content-Type"
name_of (suc (suc (suc zero))) = codes "Authorization"
name_of (suc (suc (suc (suc zero)))) = codes "Connection"
name_of (suc (suc (suc (suc (suc n))))) = codes "User-Agent"

exclusive :
    (n a b : Bytes)
    → equal (map to_lower a) (map to_lower b) ≡ false
    → (eqcase n a && eqcase n b) ≡ false
exclusive n a b h = elim (Bool-cases (eqcase n a)) [
  | inl p ↦ elim (Bool-cases (eqcase n b)) [
    | inl q ↦
        (let e = sym ((eqcase_iff n a).0 p) ∙ (eqcase_iff n b).0 q in
          let t = (equal_iff (map to_lower a) (map to_lower b)).1 e in cc)
    | inr q ↦ rw (p, q)
  ]
  | inr p ↦ rw p
]

module _ (n : Bytes) where
  apart :
      (i j : ℕ)
      → equal (map to_lower (name_of i)) (map to_lower (name_of j)) ≡ false
      → (eqcase n (name_of i) && eqcase n (name_of j)) ≡ false
  apart i j h = exclusive n (name_of i) (name_of j) h

  header_bit-name : (j : ℕ) → j < 6 → (header_bit n == 2 ^ j) ≡ eqcase n (name_of j)
  unfolding header_bit to_lower equal is_upper
  header_bit-name zero h = ground arith
  header_bit-name (suc zero) h = let a = apart 0 1 refl in ground arith
  header_bit-name (suc (suc zero)) h =
      let a = apart 0 2 refl in let b = apart 1 2 refl in ground arith
  header_bit-name (suc (suc (suc zero))) h =
      let a = apart 0 3 refl in let b = apart 1 3 refl in let c = apart 2 3 refl in ground arith
  header_bit-name (suc (suc (suc (suc zero)))) h =
      let a = apart 0 4 refl in
      let b = apart 1 4 refl in let c = apart 2 4 refl in let d = apart 3 4 refl in ground arith
  header_bit-name (suc (suc (suc (suc (suc zero))))) h =
      let a = apart 0 5 refl in
      let b = apart 1 5 refl in
      let c = apart 2 5 refl in let d = apart 3 5 refl in let e = apart 4 5 refl in ground arith
  header_bit-name (suc (suc (suc (suc (suc (suc j)))))) h = absurd (omega arith)

  bit_cases : (header_bit n ≡ 0) ⊎ ((i : ℕ) × (i < 6) × (header_bit n ≡ 2 ^ i))
  unfolding header_bit
  bit_cases = elim (Bool-cases (eqcase n (codes "Host"))) [
    | inl e ↦ inr (0, omega arith, rw e)
    | inr e₀ ↦ elim (Bool-cases (eqcase n (codes "Content-Length"))) [
      | inl e ↦ inr (1, omega arith, rw (e₀, e))
      | inr e₁ ↦ elim (Bool-cases (eqcase n (codes "Content-Type"))) [
        | inl e ↦ inr (2, omega arith, rw (e₀, e₁, e))
        | inr e₂ ↦ elim (Bool-cases (eqcase n (codes "Authorization"))) [
          | inl e ↦ inr (3, omega arith, rw (e₀, e₁, e₂, e))
          | inr e₃ ↦ elim (Bool-cases (eqcase n (codes "Connection"))) [
            | inl e ↦ inr (4, omega arith, rw (e₀, e₁, e₂, e₃, e))
            | inr e₄ ↦ elim (Bool-cases (eqcase n (codes "User-Agent"))) [
              | inl e ↦ inr (5, omega arith, rw (e₀, e₁, e₂, e₃, e₄, e))
              | inr e₅ ↦ inl (rw (e₀, e₁, e₂, e₃, e₄, e₅))
            ]
          ]
        ]
      ]
    ]
  ]

-- the bits behind one header
add_header-is_set :
    (h : HeaderOptions) (v : Bytes) (j : ℕ)
    → h.set_headers < 64
    → j < 6
    → ((add_header h v).set_headers < 64)
      × (is_set (add_header h v).set_headers (2 ^ j)
          ≡ (is_set h.set_headers (2 ^ j) || eqcase (header_name v) (name_of j)))
unfolding add_header
add_header-is_set h v j small k =
    let n = header_name v in
    let named = header_bit-name n j k in
    elim (bit_cases n) [
      | inl e ↦
          (let other : eqcase n (name_of j) ≡ false =
              sym named ∙ ap (λ b. b == 2 ^ j) e ∙ (bits_row j k).0 in
            rw (e, other) (small, or_false (is_set h.set_headers (2 ^ j))))
      | inr (i, l, e) ↦
          (let hit : eqcase n (name_of j) ≡ (i == j) =
              sym named ∙ ap (λ b. b == 2 ^ j) e ∙ bits_differ i j l k in
            rw (e, hit) (mark-is_set h.set_headers i j small l k))
    ]
  where
    or_false : (b : Bool) → b ≡ (b || false)
    or_false true = refl
    or_false false = refl

or_assoc : (a b c : Bool) → ((a || b) || c) ≡ (a || (b || c))
or_assoc true b c = refl
or_assoc false b c = refl

add_headers-is_set :
    (vs : List Bytes) (h : HeaderOptions) (j : ℕ)
    → h.set_headers < 64
    → j < 6
    → is_set (add_headers h vs).set_headers (2 ^ j)
      ≡ (is_set h.set_headers (2 ^ j) || names vs (name_of j))
add_headers-is_set [] h j small k = sym (ground arith)
add_headers-is_set (v ∷ vs) h j small k =
    let (small', e) = add_header-is_set h v j small k in
    add_headers-is_set vs (add_header h v) j small' k
    ∙ ap (λ b. b || names vs (name_of j)) e
    ∙ or_assoc (is_set h.set_headers (2 ^ j)) (eqcase (header_name v) (name_of j))
        (names vs (name_of j))

add_headers-headers :
    (vs : List Bytes) (h : HeaderOptions) → (add_headers h vs).headers ≡ h.headers ++ vs
unfolding add_header
add_headers-headers [] h = sym (append-nil h.headers)
add_headers-headers (v ∷ vs) h =
    add_headers-headers vs (add_header h v) ∙ append_assoc h.headers (v ∷ []) vs

add_headers-small :
    (vs : List Bytes) (h : HeaderOptions) → h.set_headers < 64 → (add_headers h vs).set_headers < 64
add_headers-small [] h small = small
add_headers-small (v ∷ vs) h small =
    add_headers-small vs (add_header h v) (add_header-is_set h v 0 small (omega arith)).0

-- The set of names with that of `-O`: processOAuth notes an Authorization header.
abbrev pub noted : Bool → ℕ → ℕ
noted false set = set
noted true set = mark set 8

noted-is_set :
    (oauth : Bool) (set j : ℕ)
    → set < 64
    → j < 6
    → (3 == j) ≡ false
    → is_set (noted oauth set) (2 ^ j) ≡ is_set set (2 ^ j)
noted-is_set false set j small k ne = refl
noted-is_set true set j small k ne =
    let e = (mark-is_set set 3 j small (omega arith) k).1 in e ∙ ground arith

-- the headers of a body, but for those that a line names
abbrev pub body_with_lines : List Bytes → Bytes → Bytes
body_with_lines vs [] = []
body_with_lines vs (b ∷ body) =
    unless (names vs (codes "Content-Type")) (codes "Content-Type: text/plain" ++ crlf)
    ++ unless (names vs (codes "Content-Length"))
        (codes "Content-Length: " ++ (to_string (length (b ∷ body)) ++ crlf))

body_headers-with_lines :
    (conf : ThreadConf) (vs : List Bytes) (body : Bytes)
    → is_set conf.headers_set content_type_set ≡ names vs (codes "Content-Type")
    → is_set conf.headers_set content_length_set ≡ names vs (codes "Content-Length")
    → body_headers conf body ≡ body_with_lines vs body
body_headers-with_lines conf vs [] p q = refl
body_headers-with_lines conf vs (b ∷ body) p q = rw (p, q) refl

-- The request with these header lines, written out of their names alone.
abbrev pub with_lines : ThreadConf → UrlInfo → Bytes → List Bytes → Bytes
with_lines conf url auth_header vs =
    (conf.http_verb ++ (codes " " ++ (url.path ++ (codes " HTTP/1.1" ++ crlf))))
    ++ (unless (names vs (codes "User-Agent")) (codes "User-Agent: apib" ++ crlf)
        ++ (unless (names vs (codes "Host")) (codes "Host: " ++ (url.host_header ++ crlf))
            ++ (body_with_lines vs conf.send_data
                ++ (unless (not conf.oauth) (auth_header ++ crlf)
                    ++ (unless (not conf.no_keep_alive || names vs (codes "Connection"))
                          (codes "Connection: close" ++ crlf)
                        ++ (header_lines vs ++ (crlf ++ conf.send_data)))))))

-- For a thread whose header lines are those that addHeader kept, and whose set of names is the one
-- that addHeader and, with OAuth, processOAuth noted: the request has User-Agent, Host, for a body
-- Content-Type: text/plain and Content-Length, and without keep-alive Connection: close, each left
-- out if a line has its name; the OAuth header of Authorization whatever the lines say; and then
-- all the lines, in order, and the body.
pub request-with_lines :
    (conf : ThreadConf) (url : UrlInfo) (auth_header : Bytes) (vs : List Bytes)
    → conf.headers_set ≡ noted conf.oauth (add_headers no_headers vs).set_headers
    → conf.headers ≡ (add_headers no_headers vs).headers
    → request conf url auth_header ≡ with_lines conf url auth_header vs
unfolding request
request-with_lines conf url auth_header vs e f =
    let bit : (j : ℕ)
        → j < 6
        → (3 == j) ≡ false
        → is_set conf.headers_set (2 ^ j) ≡ (is_set 0 (2 ^ j) || names vs (name_of j)) =
      λ j h ne.
        ap (λ s. is_set s (2 ^ j)) e
        ∙ noted-is_set conf.oauth (add_headers no_headers vs).set_headers j
            (add_headers-small vs no_headers (omega arith)) h ne
        ∙ add_headers-is_set vs no_headers j (omega arith) h in
    let host : is_set conf.headers_set host_set ≡ names vs (codes "Host") =
      bit 0 (omega arith) refl in
    let length_bit : is_set conf.headers_set content_length_set
        ≡ names vs (codes "Content-Length") =
      bit 1 (omega arith) refl in
    let type_bit : is_set conf.headers_set content_type_set ≡ names vs (codes "Content-Type") =
      bit 2 (omega arith) refl in
    let connection : is_set conf.headers_set connection_set ≡ names vs (codes "Connection") =
      bit 4 (omega arith) refl in
    let agent : is_set conf.headers_set user_agent_set ≡ names vs (codes "User-Agent") =
      bit 5 (omega arith) refl in
    rw
      (
        host,
        connection,
        agent,
        body_headers-with_lines conf vs conf.send_data type_bit length_bit,
        f,
        add_headers-headers vs no_headers,
      )
      refl
