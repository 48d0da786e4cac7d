-- ===== src/Oauth/Encoding.antt =====
-- apib/apib_oauth.cc: `appendEncoded` and `decode` against one another, byte by byte.
use apib.Prelude.{
  ℕ, zero, suc, ◌<◌, ◌≤◌, ◌≡◌, ◌↔◌, refl, sym, ap, ◌∙◌, Bool, true, false, not, ◌&&◌, Option, none,
  some, [], ◌∷◌, ◌++◌, append_assoc, append-nil, Bytes, arith, all, All, equal, equal_iff,
  if◌then◌else◌, inl, inr, ◌==◌, ==_iff, ◌>>=◌, leb, ltb, ◌⊎◌,
}
use apib.Oauth.Percent.{
  append_encoded, re_encode, encode_char, is_unreserved, decode, stoi_char, hex,
}

-- what the stream holds, without the stream
abbrev pub encoded : Bytes → Bytes
encoded [] = []
encoded (c ∷ cs) = encode_char c ++ encoded cs

pub append_encoded-append : (o s : Bytes) → append_encoded o s ≡ o ++ encoded s
unfolding append_encoded
append_encoded-append o [] = sym (append-nil o)
append_encoded-append o (c ∷ cs) =
    append_encoded-append (o ++ encode_char c) cs ∙ append_assoc o (encode_char c) (encoded cs)

pub re_encode-encoded : (s : Bytes) → re_encode s ≡ encoded s
unfolding re_encode
re_encode-encoded s = append_encoded-append [] s

-- the bytes below a bound, on which a test is evaluated
abbrev pub below : ℕ → Bytes
below zero = []
below (suc n) = n ∷ below n

pub tested_below :
    (test : ℕ → Bool) (bound byte : ℕ)
    → byte < bound
    → all test (below bound) ≡ true
    → test byte ≡ true
tested_below test zero byte lo table = absurd (omega arith)
tested_below test (suc bound) byte lo table = ground (arith, tested_below test bound byte)

-- The bytes that two hexadecimal digits stand for: those of ASCII that need both.
abbrev pub is_plain_ascii : ℕ → Bool
is_plain_ascii c = leb 16 c && ltb c 128

-- How such a byte is encoded: as itself, or as two digits that read back as it.
abbrev IsCoded : ℕ → Bytes → Type 0
IsCoded c e =
    ((e ≡ c ∷ []) × ((c == b'+') ≡ false) × ((c == b'%') ≡ false))
    ⊎ ((a : ℕ) × (b : ℕ) × (e ≡ b'%' ∷ a ∷ b ∷ []) × (stoi_char a b ≡ some c))

abbrev reads_back : ℕ → Option ℕ → Bool
reads_back c none = false
reads_back c (some d) = d == c

abbrev is_coded : ℕ → Bytes → Bool
is_coded c (x ∷ []) = x == c && not (c == b'+') && not (c == b'%')
is_coded c (x ∷ a ∷ b ∷ []) = x == b'%' && reads_back c (stoi_char a b)
is_coded c _ = false

reads_back-some : (c : ℕ) (o : Option ℕ) → reads_back c o ≡ true → o ≡ some c
reads_back-some c none h = cc
reads_back-some c (some d) h = ap some ((==_iff d c).0 h)

is_coded-IsCoded : (c : ℕ) (e : Bytes) → is_coded c e ≡ true → IsCoded c e
is_coded-IsCoded c (x ∷ []) h = inl (ground arith)
is_coded-IsCoded c (x ∷ a ∷ b ∷ []) h =
    inr (a, b, ground arith, reads_back-some c (stoi_char a b) (ground arith))
is_coded-IsCoded c [] h = cc
is_coded-IsCoded c (x ∷ a ∷ []) h = cc
is_coded-IsCoded c (x ∷ a ∷ b ∷ d ∷ t) h = cc

encode_table :
    all (λ c. if is_plain_ascii c then is_coded c (encode_char c) else true) (below 128) ≡ true
unfolding encode_char is_unreserved hex stoi_char
encode_table = refl

encode_char-IsCoded : (c : ℕ) → 16 ≤ c → c < 128 → IsCoded c (encode_char c)
encode_char-IsCoded c lo hi = is_coded-IsCoded c (encode_char c) (
    let h =
      tested_below (λ c. if is_plain_ascii c then is_coded c (encode_char c) else true) 128 c hi
        encode_table in
    let e : is_plain_ascii c ≡ true = ground arith in rw e at h)

abbrev pub push_byte : ℕ → Option Bytes → Option Bytes
push_byte c o = o >>= λ t. some (c ∷ t)

decode-plain :
    (c : ℕ) (cs : Bytes)
    → (c == b'+') ≡ false
    → (c == b'%') ≡ false
    → decode (c ∷ cs) ≡ push_byte c (decode cs)
unfolding decode
decode-plain c [] p q = rw (p, q)
decode-plain c (d ∷ []) p q = rw (p, q)
decode-plain c (a ∷ b ∷ cs) p q = rw (p, q)

decode-coded :
    (a b c : ℕ) (cs : Bytes)
    → stoi_char a b ≡ some c
    → decode (b'%' ∷ a ∷ b ∷ cs) ≡ push_byte c (decode cs)
unfolding decode
decode-coded a b c cs h = rw h

pub decode-encode_char :
    (c : ℕ) (rest : Bytes)
    → 16 ≤ c
    → c < 128
    → decode (encode_char c ++ rest) ≡ push_byte c (decode rest)
decode-encode_char c rest lo hi = elim (encode_char-IsCoded c lo hi) [
  | inl (e, p, q) ↦ rw e (decode-plain c rest p q)
  | inr (a, b, e, h) ↦ rw e (decode-coded a b c rest h)
]

abbrev pub IsPlainAscii : ℕ → Type 0
IsPlainAscii c = (16 ≤ c) × (c < 128)

-- decode takes back what reEncode did, for texts of ASCII bytes from 16 up.
pub decode-re_encode : (s : Bytes) → All IsPlainAscii s → decode (re_encode s) ≡ some s
decode-re_encode s h = rw (re_encode-encoded s) (decode-encoded s h)
  where
    decode-encoded : (s : Bytes) → All IsPlainAscii s → decode (encoded s) ≡ some s
    decode-encoded [] h = unfold decode in refl
    decode-encoded (c ∷ cs) h =
        decode-encode_char c (encoded cs) h.0.0 h.0.1 ∙ rw (decode-encoded cs h.1)

abbrev is_text : Bytes → Option Bytes → Bool
is_text t none = false
is_text t (some u) = equal u t

-- whether one byte comes back
abbrev comes_back : ℕ → Bool
comes_back c = is_text (c ∷ []) (decode (encode_char c))

abbrev same : Bool → Bool → Bool
same true b = b
same false b = not b

same_eq : (a b : Bool) → same a b ≡ true → a ≡ b
same_eq true b h = sym h
same_eq false true h = cc
same_eq false false h = refl

single_table : all (λ c. same (comes_back c) (is_plain_ascii c)) (below 256) ≡ true
unfolding encode_char is_unreserved hex decode stoi_char equal
single_table = refl

-- A single byte comes back through reEncode and decode exactly if it is an ASCII byte from 16 up.
pub decode-re_encode_iff :
    (c : ℕ) → c < 256 → (decode (re_encode (c ∷ [])) ≡ some (c ∷ [])) ↔ IsPlainAscii c
decode-re_encode_iff c h = (
  λ e. plain (rw (re_encode-encoded (c ∷ []), append-nil (encode_char c)) at e),
  λ p. decode-re_encode (c ∷ []) (p, tt),
)
  where
    plain : decode (encode_char c) ≡ some (c ∷ []) → IsPlainAscii c
    plain e =
        let back : comes_back c ≡ true = rw e ((equal_iff (c ∷ []) (c ∷ [])).1 refl) in
        let t = tested_below (λ c. same (comes_back c) (is_plain_ascii c)) 256 c h single_table in
        let p : is_plain_ascii c ≡ true =
          sym (same_eq (comes_back c) (is_plain_ascii c) t) ∙ back in
        ground arith
