-- ===== src/Oauth/Tests.antt =====
-- The example of test/oauth_test.cc, and the theorems at concrete inputs.
use mathlib.Core.List.Perm
use apib.Prelude.{
  All, all, ◌≡◌, ◌↔◌, refl, true, false, some, none, Bytes, codes, [], ◌∷◌, List, map, arith,
}
use apib.Oauth.{
  UrlFields, OauthInfo, Param, build_base_string, base_url, request_params, hmac_key, encode_param,
  add_oauth_params, final_params, compare_param, insert_param, sort_params, less, write_params,
  to_string,
}
use apib.Oauth.Percent.{
  decode, stoi_char, append_encoded, encode_char, re_encode, is_unreserved, hex,
}
use apib.Oauth.Encoding.{IsPlainAscii, is_plain_ascii, decode-re_encode, decode-re_encode_iff}
use apib.Oauth.Params.{build_base_string-Perm}
use apib.Oauth.BaseString.{base_string, build_base_string-no_query}
use apib.Oauth.Key.{IsKept, rfc_key, hmac_key-rfc_key}

abbrev rfc_url : UrlFields
rfc_url = record {
  is_ssl = false;
  host_header = codes "example.com";
  path_only = codes "/request";
  query = codes "b5=%3D%253D&a3=a&c%40=&a2=r%20b";
}

abbrev rfc_oauth : OauthInfo
rfc_oauth = record {
  consumer_key = codes "9djdj82h48djs9d2";
  consumer_secret = codes "j49sk3j29djd";
  access_token = codes "kkk9d7dh3k39sjv7";
  token_secret = codes "dh893hdasih9";
}

rfc_base :
    build_base_string rfc_url
      (codes "POST")
      137131201
      (codes "7d8f3e4a")
      (some (codes "c2&a3=2+q"))
      rfc_oauth
    ≡ some (
        codes
          "POST&http%3A%2F%2Fexample.com%2Frequest&a2%3Dr%2520b%26a3%3D2%2520q%26a3%3Da%26b5%3D%253D%25253D%26c%2540%3D%26c2%3D%26oauth_consumer_key%3D9djdj82h48djs9d2%26oauth_nonce%3D7d8f3e4a%26oauth_signature_method%3DHMAC-SHA1%26oauth_timestamp%3D137131201%26oauth_token%3Dkkk9d7dh3k39sjv7")
unfolding build_base_string base_url request_params decode stoi_char add_oauth_params final_params
    append_encoded encode_char is_unreserved hex re_encode sort_params insert_param compare_param
    less write_params to_string
rfc_base = refl

decode-re_encode_example : decode (re_encode (codes "a b&c")) ≡ some (codes "a b&c")
decode-re_encode_example = decode-re_encode (codes "a b&c") (
  (omega arith, omega arith),
  (
    (omega arith, omega arith),
    ((omega arith, omega arith), ((omega arith, omega arith), ((omega arith, omega arith), tt))),
  ),
)

decode-re_encode_iff_example :
    (decode (re_encode (b'\n' ∷ [])) ≡ some (b'\n' ∷ [])) ↔ IsPlainAscii b'\n'
decode-re_encode_iff_example = decode-re_encode_iff b'\n' (omega arith)

abbrev two_params : List Param
two_params = (codes "b", codes "2") ∷ (codes "a", codes "1") ∷ []

abbrev get_url : Bytes → UrlFields
get_url query = record {
  is_ssl = true;
  host_header = codes "example.com";
  path_only = codes "/r";
  query = query;
}

build_base_string-Perm_example :
    build_base_string (get_url (codes "b=2&a=1")) (codes "GET") 7 (codes "n") none rfc_oauth
    ≡ build_base_string (get_url (codes "a=1&b=2")) (codes "GET") 7 (codes "n") none rfc_oauth
unfolding request_params decode base_url
build_base_string-Perm_example =
    build_base_string-Perm (get_url (codes "b=2&a=1")) (get_url (codes "a=1&b=2")) (codes "GET")
      (codes "n") 7 none none rfc_oauth two_params
      ((codes "a", codes "1") ∷ (codes "b", codes "2") ∷ []) (λ base. refl) refl refl
      (Perm.swap (codes "a", codes "1") (codes "b", codes "2") [])

build_base_string-no_query_example :
    build_base_string (get_url []) (codes "GET") 7 (codes "n") none rfc_oauth
    ≡ some (
        base_string (get_url []) (codes "GET") (
          b'='
          ∷ write_params false
              (sort_params (map encode_param (add_oauth_params [] rfc_oauth (codes "n") 7)))))
build_base_string-no_query_example =
    build_base_string-no_query (get_url []) (codes "GET") (codes "n") 7 rfc_oauth refl

all_plain : (s : Bytes) → all is_plain_ascii s ≡ true → All IsPlainAscii s
all_plain [] h = tt
all_plain (c ∷ s) h = (ground arith, all_plain s (ground arith))

hmac_key-rfc_key_example :
    (hmac_key rfc_oauth ≡ rfc_key rfc_oauth) ↔ All IsKept (codes "dh893hdasih9")
hmac_key-rfc_key_example = hmac_key-rfc_key rfc_oauth (all_plain rfc_oauth.consumer_secret refl)
