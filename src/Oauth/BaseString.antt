-- ===== src/Oauth/BaseString.antt =====
-- apib/apib_oauth.cc: the parts of the signature base string and of the key, against RFC 5849.
use apib.Prelude.{
  ℕ, zero, suc, ◌/◌, ◌%◌, ◌<◌, ◌≡◌, refl, sym, ap, ◌∙◌, true, false, Option, some, none, subst,
  List, [], ◌∷◌, ◌++◌, map, append_assoc, Bytes, arith, if◌then◌else◌, inl, inr, Bool-cases, codes,
  ◌==◌, All, All-append,
}
use apib.Oauth.{
  Param, str_split, less, compare_param, insert_param, sort_params, write_params, final_params,
  encode_param, add_oauth_params, build_base_string, base_url, request_params, read_param,
  UrlFields, OauthInfo,
}
use apib.Oauth.Percent.{
  hex_digit, hex_onto, hex, is_unreserved, encode_char, char_to_int, re_encode, decode,
}
use apib.Oauth.Params.{add_oauth_params-append}
use apib.Oauth.Encoding.{encoded, append_encoded-append, re_encode-encoded}

abbrev pub NoAmp : Bytes → Type 0
NoAmp = All (λ c. (c == b'&') ≡ false)

hex_digit-ne_amp : (d : ℕ) → d < 16 → (hex_digit d == b'&') ≡ false
unfolding hex_digit
hex_digit-ne_amp d h = ground arith

hex_onto-NoAmp : (rounds n : ℕ) (acc : Bytes) → NoAmp acc → NoAmp (hex_onto rounds n acc)
unfolding hex_onto
hex_onto-NoAmp zero n acc h = h
hex_onto-NoAmp (suc rounds) n acc h = elim (Bool-cases (n / 16 == 0)) [
  | inl last ↦ rw last (hex_digit-ne_amp n (ground arith), h)
  | inr more ↦
      rw more (hex_onto-NoAmp rounds (n / 16) _ (hex_digit-ne_amp (n % 16) (omega arith), h))
]

hex-NoAmp : (n : ℕ) → NoAmp (hex n)
unfolding hex
hex-NoAmp n = hex_onto-NoAmp 8 n [] tt

unreserved-ne_amp : (c : ℕ) → is_unreserved c ≡ true → (c == b'&') ≡ false
unfolding is_unreserved
unreserved-ne_amp c h = ground arith

encode_char-NoAmp : (c : ℕ) → NoAmp (encode_char c)
unfolding encode_char
encode_char-NoAmp c = elim (Bool-cases (is_unreserved c)) [
  | inl plain ↦ rw plain (unreserved-ne_amp c plain, tt)
  | inr coded ↦ rw coded (refl, hex-NoAmp (char_to_int c))
]

encoded-NoAmp : (s : Bytes) → NoAmp (encoded s)
encoded-NoAmp [] = tt
encoded-NoAmp (c ∷ cs) =
    All-append (λ c. (c == b'&') ≡ false) (encode_char c) (encoded cs) (encode_char-NoAmp c)
      (encoded-NoAmp cs)

str_split-none : (a : Bytes) → NoAmp a → str_split b'&' a ≡ (a, [])
unfolding str_split
str_split-none [] h = refl
str_split-none (c ∷ a) h = rw (h.0, str_split-none a h.1)

str_split-first :
    (a b : Bytes)
    → NoAmp a
    → str_split b'&' (a ++ (b'&' ∷ b)) ≡ (a, (str_split b'&' b).0 ∷ (str_split b'&' b).1)
unfolding str_split
str_split-first [] b h = refl
str_split-first (c ∷ a) b h = rw (h.0, str_split-first a b h.1)

-- the base string URI of RFC 5849, 3.4.1.2, not yet encoded
abbrev pub uri : UrlFields → Bytes
uri url =
    (if url.is_ssl then codes "https" else codes "http")
    ++ (codes "://" ++ (url.host_header ++ url.path_only))

encoded-append : (a b : Bytes) → encoded (a ++ b) ≡ encoded a ++ encoded b
encoded-append [] b = refl
encoded-append (c ∷ a) b =
    rw (encoded-append a b) (sym (append_assoc (encode_char c) (encoded a) (encoded b)))

base_url-uri : (url : UrlFields) (base : Bytes) → base_url url base ≡ base ++ encoded (uri url)
unfolding base_url
base_url-uri url base = simp (append_encoded-append, encoded-append, append_assoc)

-- the base string of RFC 5849, 3.4.1.1, over these parameters
abbrev pub base_string : UrlFields → Bytes → Bytes → Bytes
base_string url method params =
    method ++ (b'&' ∷ (re_encode (uri url) ++ (b'&' ∷ re_encode params)))

module _ (url : UrlFields) (method nonce : Bytes) (timestamp : ℕ) (body : Option Bytes)
    (oauth : OauthInfo) where
  build_base_string-base_string :
      (ps : List Param)
      → request_params url body ≡ some ps
      → build_base_string url method timestamp nonce body oauth
        ≡ some (base_string url method (final_params (add_oauth_params ps oauth nonce timestamp)))
  unfolding build_base_string
  build_base_string-base_string ps p =
      rw p (ap some (simp (base_url-uri, re_encode-encoded, append_encoded-append, append_assoc)))

  -- For a method without '&' and parameters that can be read, the base string is exactly three
  -- pieces between '&'s: the method, the encoded URI and the encoded parameters.
  build_base_string-split :
      (ps : List Param) (base : Bytes)
      → NoAmp method
      → request_params url body ≡ some ps
      → build_base_string url method timestamp nonce body oauth ≡ some base
      → str_split b'&' base ≡ (
        method,
        re_encode (uri url)
            ∷ re_encode (final_params (add_oauth_params ps oauth nonce timestamp))
            ∷ [],
      )
  build_base_string-split ps base h p e =
      let params = final_params (add_oauth_params ps oauth nonce timestamp) in
      let is_base : base ≡ base_string url method params =
        cc (build_base_string-base_string ps p) in
      let no_amp = λ (s : Bytes). subst NoAmp (sym (re_encode-encoded s)) (encoded-NoAmp s) in
      rw (
        is_base,
        str_split-first method (re_encode (uri url) ++ (b'&' ∷ re_encode params)) h,
        str_split-first (re_encode (uri url)) (re_encode params) (no_amp (uri url)),
        str_split-none (re_encode params) (no_amp params),
      )

-- With no query and no body the code signs one parameter that the request does not have, of an
-- empty name and an empty value: it stands as "=" in front of all others.
insert_param-empty : (l : List Param) → insert_param ([], []) l ≡ ([], []) ∷ l
unfolding insert_param
insert_param-empty [] = refl
insert_param-empty ((n, v) ∷ l) = rw (not_below n v)
  where
    not_below : (n v : Bytes) → compare_param (n, v) ([], []) ≡ false
    not_below [] [] = unfold compare_param less in refl
    not_below [] (c ∷ v) = unfold compare_param less in refl
    not_below (c ∷ n) v = unfold compare_param less in refl

final_params-empty :
    (ps : List Param)
    → final_params (([], []) ∷ ps) ≡ b'=' ∷ write_params false (sort_params (map encode_param ps))
unfolding final_params sort_params re_encode write_params
final_params-empty ps = rw insert_param-empty

request_params-empty :
    (url : UrlFields) → url.query ≡ [] → request_params url none ≡ some (([], []) ∷ [])
unfolding request_params read_param decode
request_params-empty url e = rw e

-- Without a query and a body, the base string signs an extra parameter with an empty name and
-- value in front of the others.
pub build_base_string-no_query :
    (url : UrlFields) (method nonce : Bytes) (timestamp : ℕ) (oauth : OauthInfo)
    → url.query ≡ []
    → build_base_string url method timestamp nonce none oauth
      ≡ some (
          base_string url method (
            b'='
            ∷ write_params false
                (sort_params (map encode_param (add_oauth_params [] oauth nonce timestamp)))))
build_base_string-no_query url method nonce timestamp oauth e =
    let signed = add_oauth_params-append (([], []) ∷ []) oauth nonce timestamp in
    build_base_string-base_string url method nonce timestamp none oauth (([], []) ∷ [])
      (request_params-empty url e)
    ∙ ap (λ x. some (base_string url method x))
        (ap final_params signed ∙ final_params-empty (add_oauth_params [] oauth nonce timestamp))
