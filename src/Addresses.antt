-- ===== src/Addresses.antt =====
-- apib/addresses.h and apib/addresses.cc: socket addresses as bytes, and the list that a name
-- resolves to. `none` is a failed assertion, on a family that the code does not know. What
-- getaddrinfo answers is a list of such addresses.
pub mod Laws
mod Tests
use apib.Prelude.{
  ℕ, ◌+◌, ◌-◌, ◌*◌, ◌/◌, ◌%◌, Bool, true, false, not, ◌&&◌, Option, none, some, List, [], ◌∷◌, map,
  Bytes, length, get_elem?, get_or, set, take, replicate, ◌==◌, equal, if◌then◌else◌, ◌>>=◌,
}

pub data Family : Type 0 where
  unspec inet inet6 : Family
  other : ℕ → Family

-- `sockaddr_storage`: the bytes behind `ss_family`; in both families the port is the first two.
pub record Address : Type 0 where
  pub family : Family
  pub body : Bytes

abbrev pub same_family : Family → Family → Bool
same_family Family.unspec Family.unspec = true
same_family Family.inet Family.inet = true
same_family Family.inet6 Family.inet6 = true
same_family (Family.other a) (Family.other b) = a == b
same_family _ _ = false

-- Address()
abbrev pub no_address : Address
no_address = record { family = Family.unspec; body = replicate 126 0 }

-- valid()
unfoldable pub valid : Address → Bool
valid a = not (same_family a.family Family.unspec)

-- length(): sizeof(sockaddr_in), sizeof(sockaddr_in6)
abbrev pub length_in : Family → Option ℕ
length_in Family.inet = some 16
length_in Family.inet6 = some 28
length_in Family.unspec = some 0
length_in (Family.other n) = none

unfoldable pub address_length : Address → Option ℕ
address_length a = length_in a.family

-- port(), with ntohs
abbrev pub port_in : Family → Bytes → Option ℕ
port_in Family.inet body = some (get_or body 0 0 * 256 + get_or body 1 0)
port_in Family.inet6 body = some (get_or body 0 0 * 256 + get_or body 1 0)
port_in Family.unspec body = some 0
port_in (Family.other n) body = none

unfoldable pub port : Address → Option ℕ
port a = port_in a.family a.body

-- setPort(port), with htons
abbrev stamp : Bytes → ℕ → Bytes
stamp body p = set (set body 0 (p / 256)) 1 (p % 256)

abbrev pub set_port_in : Family → Address → ℕ → Option Address
set_port_in Family.inet a p = some (record a { body = stamp a.body p })
set_port_in Family.inet6 a p = some (record a { body = stamp a.body p })
set_port_in _ a p = none

unfoldable pub set_port : Address → ℕ → Option Address
set_port a p = set_port_in a.family a p

-- operator==: memcmp over length() bytes, two of which are the family
unfoldable pub same_address : Address → Address → Option Bool
same_address a1 a2 =
    if not (same_family a1.family a2.family)
    then some false
    else (length_in a1.family >>= λ n. some (equal (take (n - 2) a1.body) (take (n - 2) a2.body)))

-- Addresses(addrs): every address of the list, its port set to 0
unfoldable pub of_results : List Address → Option (List Address)
of_results [] = some []
of_results (a ∷ as') = set_port a 0 >>= λ b. of_results as' >>= λ bs. some (b ∷ bs)

-- Addresses::get(port, sequence), for a sequence number that is not negative
unfoldable pub get : List Address → ℕ → ℕ → Option Address
get [] p sequence = some no_address
get (a ∷ as') p sequence =
    get_elem? (a ∷ as') (sequence % length (a ∷ as')) >>= λ ret. set_port ret p
