-- ===== src/Oauth/Percent.antt =====
-- apib/apib_oauth.cc: the percent encoding of OAuth, appendEncoded and reEncode, and decode.
use apib.Prelude.{
  ℕ, zero, suc, ◌+◌, ◌-◌, ◌*◌, ◌/◌, ◌%◌, ◌^◌, Bool, ◌&&◌, ◌||◌, Option, none, some, [], ◌∷◌, ◌++◌,
  Bytes, leb, ltb, ◌==◌, if◌then◌else◌, ◌>>=◌,
}
use apib.Util.{is_alnum, is_digit, is_space}

-- a digit under std::hex and std::uppercase
unfoldable pub hex_digit : ℕ → ℕ
hex_digit d = if ltb d 10 then b'0' + d else b'A' + (d - 10)

-- the digits of `n` in front of `acc`, without leading zeros; eight rounds serve an `int`
unfoldable pub hex_onto : ℕ → ℕ → Bytes → Bytes
unfolding hex_digit
hex_onto zero n acc = acc
hex_onto (suc rounds) n acc =
    let more = hex_onto rounds (n / 16) (hex_digit (n % 16) ∷ acc) in
    if n / 16 == 0 then hex_digit n ∷ acc else more

-- `o << std::hex << std::uppercase << n` for the pattern of an `int`
unfoldable pub hex : ℕ → Bytes
unfolding hex_onto
hex n = hex_onto 8 n []

-- `const int ch = str[p]`, as a pattern: `char` is signed
abbrev pub char_to_int : ℕ → ℕ
char_to_int c = if ltb c 128 then c else 2 ^ 32 - 256 + c

unfoldable pub is_unreserved : ℕ → Bool
unfolding is_alnum
is_unreserved c = is_alnum c || c == b'-' || c == b'.' || c == b'_' || c == b'~'

unfoldable pub encode_char : ℕ → Bytes
encode_char c = if is_unreserved c then c ∷ [] else b'%' ∷ hex (char_to_int c)

-- appendEncoded(o, str); the stream is what was written to it
unfoldable pub append_encoded : Bytes → Bytes → Bytes
append_encoded o [] = o
append_encoded o (c ∷ cs) = append_encoded (o ++ encode_char c) cs

unfoldable pub re_encode : Bytes → Bytes
unfolding append_encoded
re_encode str = append_encoded [] str

unfoldable pub hex_value : ℕ → Option ℕ
unfolding is_digit
hex_value c =
    if is_digit c
    then some (c - b'0')
    else if leb b'A' c && leb c b'F'
    then some (c - b'A' + 10)
    else if leb b'a' c && leb c b'f'
    then some (c - b'a' + 10)
    else none

abbrev after_digit : ℕ → Option ℕ → ℕ
after_digit x none = x
after_digit x (some y) = x * 16 + y

-- `(char)std::stoi(tmp, nullptr, 16)` of two bytes: white space or a sign may stand first, and
-- what follows the first digit may be anything. `none` is the exception std::invalid_argument.
unfoldable pub stoi_char : ℕ → ℕ → Option ℕ
unfolding hex_value is_space
stoi_char a b = elim (hex_value a) [
  | some x ↦ some (after_digit x (hex_value b))
  | none ↦
      if is_space a || a == b'+'
      then hex_value b
      else if a == b'-'
      then (hex_value b >>= λ y. some ((256 - y) % 256))
      else none
]

-- the loop of `decode`: a '%' with fewer than two bytes behind it ends the text
unfoldable pub decode : Bytes → Option Bytes
decode [] = some []
decode (c ∷ []) = some (if c == b'+' then b' ' ∷ [] else if c == b'%' then [] else c ∷ [])
decode (c ∷ d ∷ []) =
    let rest = decode (d ∷ []) in
    if c == b'+'
    then (rest >>= λ t. some (b' ' ∷ t))
    else if c == b'%'
    then some []
    else (rest >>= λ t. some (c ∷ t))
decode (c ∷ a ∷ b ∷ cs) =
    let rest = decode (a ∷ b ∷ cs) in
    let behind = decode cs in
    if c == b'+'
    then (rest >>= λ t. some (b' ' ∷ t))
    else if c == b'%'
    then (stoi_char a b >>= λ ch. behind >>= λ t. some (ch ∷ t))
    else (rest >>= λ t. some (c ∷ t))
