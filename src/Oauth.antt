-- ===== src/Oauth.antt =====
-- apib/apib_oauth.h and apib/apib_oauth.cc: OAuth 1.0a signatures. HMAC-SHA1 (OpenSSL) and Base64
-- (third_party/base64) are arguments; the random numbers and the time come in as numbers.
pub mod Percent
pub mod Encoding
pub mod Order
pub mod Params
pub mod BaseString
pub mod Key
mod Tests
use apib.Prelude.{
  ℕ, zero, suc, ◌+◌, ◌-◌, ◌*◌, ◌/◌, ◌%◌, ◌^◌, Bool, true, false, not, ◌&&◌, ◌||◌, Option, none,
  some, List, [], ◌∷◌, ◌++◌, map, Bytes, codes, leb, ltb, ◌==◌, if◌then◌else◌, ◌>>=◌, flatten,
}
use apib.Util.{is_alnum, is_digit, is_space}
use apib.Oauth.Percent.{
  hex_digit, hex_onto, hex, char_to_int, is_unreserved, encode_char, append_encoded, re_encode,
  hex_value, stoi_char, decode,
}

pub record OauthInfo : Type 0 where
  pub consumer_key : Bytes
  pub consumer_secret : Bytes
  pub access_token : Bytes
  pub token_secret : Bytes

-- what the functions below ask of a URLInfo
pub record UrlFields : Type 0 where
  pub is_ssl : Bool
  pub host_header : Bytes
  pub path_only : Bytes
  pub query : Bytes

abbrev pub Param : Type 0
Param = Bytes × Bytes

-- absl::StrSplit(str, sep), with its first piece apart: there is always one
unfoldable pub str_split : ℕ → Bytes → Bytes × List Bytes
str_split sep [] = ([], [])
str_split sep (c ∷ cs) =
    let (first, more) = str_split sep cs in
    if c == sep then ([], first ∷ more) else (c ∷ first, more)

-- the pair that `readParams` makes of one piece
unfoldable pub read_param : Bytes → Option Param
read_param piece =
    let (n, more) = str_split b'=' piece in
    decode n >>= λ name. elim more [
      | [] ↦ some (name, [])
      | v ∷ _ ↦ (decode v >>= λ val. some (name, val))
    ]

unfoldable pub read_pieces : List Param → List Bytes → Option (List Param)
unfolding read_param
read_pieces params [] = some params
read_pieces params (p ∷ ps) = read_param p >>= λ q. read_pieces (params ++ (q ∷ [])) ps

unfoldable pub read_params : List Param → Bytes → Option (List Param)
unfolding str_split read_pieces
read_params params str = let (first, more) = str_split b'&' str in read_pieces params (first ∷ more)

-- addParam
abbrev pub add_param : List Param → Bytes → Bytes → List Param
add_param params name val = params ++ ((name, val) ∷ [])

-- operator< of std::string
unfoldable pub less : Bytes → Bytes → Bool
less [] [] = false
less [] (y ∷ ys) = true
less (x ∷ xs) [] = false
less (x ∷ xs) (y ∷ ys) =
    let rest = less xs ys in if ltb x y then true else if ltb y x then false else rest

unfoldable pub compare_param : Param → Param → Bool
compare_param p1 p2 =
    if less p1.0 p2.0 then true else if less p2.0 p1.0 then false else less p1.1 p2.1

-- std::sort under `compareParam`: parameters that neither precedes the other are equal, so that
-- every sorted arrangement is this one.
unfoldable pub insert_param : Param → List Param → List Param
insert_param p [] = p ∷ []
insert_param p (q ∷ qs) =
    let rest = insert_param p qs in if compare_param q p then q ∷ rest else p ∷ q ∷ qs

unfoldable pub sort_params : List Param → List Param
sort_params [] = []
sort_params (p ∷ ps) = insert_param p (sort_params ps)

-- the loop that writes the final list, with the flag `first`
unfoldable pub write_params : Bool → List Param → Bytes
write_params first [] = []
write_params first (p ∷ ps) =
    (if first then [] else b'&' ∷ []) ++ (p.0 ++ (b'=' ∷ (p.1 ++ write_params false ps)))

-- std::to_string of a number that is not negative; twenty rounds serve 64 bits
unfoldable pub digits_onto : ℕ → ℕ → Bytes → Bytes
digits_onto zero n acc = acc
digits_onto (suc rounds) n acc =
    let more = digits_onto rounds (n / 10) ((b'0' + n % 10) ∷ acc) in
    if n / 10 == 0 then (b'0' + n) ∷ acc else more

unfoldable pub to_string : ℕ → Bytes
unfolding digits_onto
to_string n = digits_onto 20 n []

-- `if (!val.empty()) { addParam(params, name, val); }`
abbrev pub add_given : List Param → Bytes → Bytes → List Param
add_given params name [] = params
add_given params name (c ∷ cs) = add_param params name (c ∷ cs)

-- the parameters that are signed beside those of the request
unfoldable pub add_oauth_params : List Param → OauthInfo → Bytes → ℕ → List Param
add_oauth_params params oauth nonce timestamp =
    let ps₁ = add_given params (codes "oauth_consumer_key") oauth.consumer_key in
    let ps₂ = add_given ps₁ (codes "oauth_token") oauth.access_token in
    let ps₃ = add_param ps₂ (codes "oauth_signature_method") (codes "HMAC-SHA1") in
    let ps₄ = add_param ps₃ (codes "oauth_nonce") nonce in
    add_param ps₄ (codes "oauth_timestamp") (to_string timestamp)

abbrev pub encode_param : Param → Param
encode_param p = (re_encode p.0, re_encode p.1)

-- the third part of the base string, before it is encoded again
unfoldable pub final_params : List Param → Bytes
final_params params = write_params true (sort_params (map encode_param params))

unfoldable pub request_params : UrlFields → Option Bytes → Option (List Param)
unfolding read_params
request_params url send_data = read_params [] url.query >>= λ ps. elim send_data [
  | none ↦ some ps
  | some body ↦ read_params ps body
]

-- scheme and host, as `buildBaseString` writes them
unfoldable pub base_url : UrlFields → Bytes → Bytes
base_url url base =
    let b₁ = append_encoded base (if url.is_ssl then codes "https" else codes "http") in
    let b₂ = append_encoded b₁ (codes "://") in
    append_encoded (append_encoded b₂ url.host_header) url.path_only

unfoldable pub build_base_string :
    UrlFields → Bytes → ℕ → Bytes → Option Bytes → OauthInfo → Option Bytes
build_base_string url method timestamp nonce send_data oauth =
    let base = base_url url (method ++ (b'&' ∷ [])) in
    request_params url send_data >>= λ ps.
    let params = add_oauth_params ps oauth nonce timestamp in
    some (append_encoded (base ++ (b'&' ∷ [])) (final_params params))

-- the key of the signature
unfoldable pub hmac_key : OauthInfo → Bytes
hmac_key oauth = (append_encoded [] oauth.consumer_secret ++ (b'&' ∷ [])) ++ oauth.token_secret

-- makeNonce, from two numbers of the generator (patterns of `int32_t`)
unfoldable pub make_nonce : ℕ → ℕ → Bytes
make_nonce r1 r2 = hex r1 ++ hex r2

-- `if (!accessToken.empty()) { o << label; appendEncoded(o, accessToken); }`
abbrev token_field : Bytes → Bytes → Bytes
token_field label [] = []
token_field label (c ∷ cs) = label ++ re_encode (c ∷ cs)

-- `hmac key base` is the digest of HMAC-SHA1, and `base64` the encoder.
module _ (hmac : Bytes → Bytes → Bytes) (base64 : Bytes → Bytes) where
  unfoldable pub generate_hmac : Bytes → OauthInfo → Bytes
  unfolding hmac_key
  generate_hmac base oauth = base64 (hmac (hmac_key oauth) base)

  unfoldable pub make_query_string :
      UrlFields → Bytes → ℕ → Bytes → Option Bytes → OauthInfo → Option Bytes
  make_query_string url method timestamp nonce send_data oauth =
      build_base_string url method timestamp nonce send_data oauth >>= λ base.
      let signature = generate_hmac base oauth in
      let token = token_field (codes "&oauth_token=") oauth.access_token in
      some (
        flatten (
          codes "oauth_consumer_key="
          ∷ re_encode oauth.consumer_key
          ∷ token
          ∷ codes "&oauth_signature_method=HMAC-SHA1"
          ∷ codes "&oauth_signature="
          ∷ re_encode signature
          ∷ codes "&oauth_timestamp="
          ∷ to_string timestamp
          ∷ codes "&oauth_nonce="
          ∷ nonce
          ∷ []))

  unfoldable pub make_header :
      UrlFields → Bytes → Bytes → ℕ → Bytes → Option Bytes → OauthInfo → Option Bytes
  make_header url realm method timestamp nonce send_data oauth =
      build_base_string url method timestamp nonce send_data oauth >>= λ base.
      let signature = generate_hmac base oauth in
      let token = token_field (codes "\", oauth_token=\"") oauth.access_token in
      some (
        flatten (
          codes "Authorization: OAuth realm=\""
          ∷ realm
          ∷ codes "\", oauth_consumer_key=\""
          ∷ re_encode oauth.consumer_key
          ∷ token
          ∷ codes "\", oauth_signature_method=\"HMAC-SHA1\", oauth_signature=\""
          ∷ re_encode signature
          ∷ codes "\", oauth_timestamp=\""
          ∷ to_string timestamp
          ∷ codes "\", oauth_nonce=\""
          ∷ nonce
          ∷ codes "\""
          ∷ []))
