-- ===== src/Oauth/Key.antt =====
-- apib/apib_oauth.cc, the key of hmacSha1Base64, against RFC 5849.
use mathlib.Core.List.{append_cancel_left, tail-eq_of_cons-eq}
use apib.Prelude.{
  ℕ, ◌+◌, ◌/◌, ◌%◌, ◌≤◌, ◌≡◌, ◌↔◌, refl, sym, ap, ◌∙◌, Bool, true, ◌&&◌, ◌||◌, [], ◌∷◌, ◌++◌,
  append_assoc, Bytes, arith, if◌then◌else◌, inl, inr, Bool-cases, length, leb, ltb, ◌==◌, all, All,
  equal, equal_iff,
}
use apib.Oauth.{hmac_key, OauthInfo}
use apib.Oauth.Percent.{hex, is_unreserved, encode_char}
use apib.Oauth.Encoding.{
  IsPlainAscii, is_plain_ascii, below, tested_below, encoded, append_encoded-append,
}

-- RFC 5849, 3.6: all bytes but letters, digits, '-', '.', '_' and '~' are encoded, as '%' and two
-- upper case hexadecimal digits.
abbrev is_letter_or_digit : ℕ → Bool
is_letter_or_digit c =
    (leb b'A' c && leb c b'Z') || (leb b'a' c && leb c b'z') || (leb b'0' c && leb c b'9')

abbrev is_kept : ℕ → Bool
is_kept c = is_letter_or_digit c || (c == b'-') || (c == b'.') || (c == b'_') || (c == b'~')

abbrev upper_digit : ℕ → ℕ
upper_digit d = if ltb d 10 then 48 + d else 55 + d

abbrev percent_byte : ℕ → Bytes
percent_byte c = if is_kept c then c ∷ [] else 37 ∷ upper_digit (c / 16) ∷ upper_digit (c % 16) ∷ []

abbrev pub percent_encode : Bytes → Bytes
percent_encode [] = []
percent_encode (c ∷ cs) = percent_byte c ++ percent_encode cs

-- RFC 5849, 3.4.2: both secrets are encoded.
abbrev pub rfc_key : OauthInfo → Bytes
rfc_key oauth = percent_encode oauth.consumer_secret ++ (b'&' ∷ percent_encode oauth.token_secret)

percent_table :
    all (λ c. if is_plain_ascii c then equal (encode_char c) (percent_byte c) else true) (below 128)
    ≡ true
unfolding encode_char is_unreserved hex equal
percent_table = refl

encode_char-percent_byte : (c : ℕ) → IsPlainAscii c → encode_char c ≡ percent_byte c
encode_char-percent_byte c p = (equal_iff (encode_char c) (percent_byte c)).0 (
    let h =
      tested_below (λ c. if is_plain_ascii c then equal (encode_char c) (percent_byte c) else true)
        128 c p.1 percent_table in
    let e : is_plain_ascii c ≡ true = ground arith in rw e at h)

encoded-percent_encode : (s : Bytes) → All IsPlainAscii s → encoded s ≡ percent_encode s
encoded-percent_encode [] h = refl
encoded-percent_encode (c ∷ cs) h =
    rw (encode_char-percent_byte c h.0, encoded-percent_encode cs h.1) refl

-- a byte of a secret that RFC 5849 leaves as it is
abbrev pub IsKept : ℕ → Type 0
IsKept c = is_kept c ≡ true

length-percent_encode : (s : Bytes) → length s ≤ length (percent_encode s)
length-percent_encode [] = omega arith
length-percent_encode (c ∷ cs) =
    let ih = length-percent_encode cs in
    elim (Bool-cases (is_kept c)) [
      | inl kept ↦ rw kept (omega (arith, ih))
      | inr coded ↦ rw coded (omega (arith, ih))
    ]

percent_encode-IsKept : (s : Bytes) → (percent_encode s ≡ s) ↔ All IsKept s
percent_encode-IsKept [] = (λ h. tt, λ h. refl)
percent_encode-IsKept (c ∷ cs) = elim (Bool-cases (is_kept c)) [
  | inl kept ↦ (
    λ h.
        let tail : percent_encode cs ≡ cs = tail-eq_of_cons-eq (rw kept at h) in
        (kept, (percent_encode-IsKept cs).0 tail),
    λ h. rw (kept, (percent_encode-IsKept cs).1 h.1) refl,
  )
  | inr coded ↦ (
    λ h.
        let longer : length (37 ∷ upper_digit (c / 16) ∷ upper_digit (c % 16) ∷ percent_encode cs)
            ≡ length (c ∷ cs) =
          ap length (rw coded at h) in
        absurd (omega (arith, longer, length-percent_encode cs)),
    λ h. let kept = h.0 in cc,
  )
]

-- For a consumer secret of ASCII bytes from 16 up, the key of the signature is that of RFC 5849,
-- with both secrets encoded as its section 3.6 says, exactly if each byte of the token secret is
-- one that this encoding leaves as it is: a letter, a digit, '-', '.', '_' or '~'.
pub hmac_key-rfc_key :
    (oauth : OauthInfo)
    → All IsPlainAscii oauth.consumer_secret
    → (hmac_key oauth ≡ rfc_key oauth) ↔ All IsKept oauth.token_secret
unfolding hmac_key
hmac_key-rfc_key oauth plain =
    let same =
      append_encoded-append [] oauth.consumer_secret
      ∙ encoded-percent_encode oauth.consumer_secret plain in
    let secret = percent_encode oauth.consumer_secret in
    let key = append_assoc secret (b'&' ∷ []) oauth.token_secret in
    let kept = percent_encode-IsKept oauth.token_secret in
    (
      λ h.
          kept.0
            (sym (tail-eq_of_cons-eq (append_cancel_left secret _ _ (sym key ∙ (rw same at h))))),
      λ h. rw same (key ∙ ap (λ t. secret ++ (b'&' ∷ t)) (sym (kept.1 h))),
    )
