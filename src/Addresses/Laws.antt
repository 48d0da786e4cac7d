-- ===== src/Addresses/Laws.antt =====
-- apib/addresses.cc: ports, the comparison of addresses, and the rotation through a list.
use native.Mathlib.Nat.{mod-eq_of_lt}
use apib.Prelude.{
  ℕ, suc, ◌+◌, ◌*◌, ◌/◌, ◌%◌, ◌<◌, ◌≤◌, ◌≡◌, refl, ap, Bool, true, Option, some, List, [], ◌∷◌,
  Bytes, length, get_or, set, take, arith, equal, equal_iff, get_elem?-eq-get_or,
}
use apib.Addresses.{
  Family, Address, same_family, no_address, port_in, port, set_port, set_port_in, same_address, get,
}

-- A family of the Internet.
abbrev pub IsInet : Family → Type 0
IsInet Family.inet = Unit
IsInet Family.inet6 = Unit
IsInet _ = ⊥

-- An address of the Internet with the bytes of a `sockaddr_storage`.
abbrev pub IsWhole : Address → Type 0
IsWhole a = IsInet a.family × (length a.body ≡ 126)

stamp-port :
    (body : Bytes) (p : ℕ)
    → 2 ≤ length body
    → get_or (set (set body 0 (p / 256)) 1 (p % 256)) 0 0 * 256
        + get_or (set (set body 0 (p / 256)) 1 (p % 256)) 1 0
      ≡ p
stamp-port [] p h = absurd (omega arith)
stamp-port (a ∷ []) p h = absurd (omega arith)
stamp-port (a ∷ b ∷ body) p h = omega arith

Stamped : Address → ℕ → Option Address → Type 0
Stamped a p o = (b : Address) × (o ≡ some b) × (port b ≡ some p) × (b.family ≡ a.family)

set_port_in-Stamped :
    (f : Family) (a : Address) (p : ℕ)
    → a.family ≡ f
    → IsInet f
    → 2 ≤ length a.body
    → Stamped a p (set_port_in f a p)
unfolding Stamped port
set_port_in-Stamped Family.inet a p e i h = (_, refl, rw e (ap some (stamp-port a.body p h)), refl)
set_port_in-Stamped Family.inet6 a p e i h = (_, refl, rw e (ap some (stamp-port a.body p h)), refl)
set_port_in-Stamped Family.unspec a p e i h = absurd i
set_port_in-Stamped (Family.other n) a p e i h = absurd i

-- For an address of the Internet with the bytes of a sockaddr_storage, setPort sets what port
-- reads, and keeps the family.
port-set_port :
    (a : Address) (p : ℕ)
    → IsWhole a
    → (b : Address) × (set_port a p ≡ some b) × (port b ≡ some p) × (b.family ≡ a.family)
unfolding set_port Stamped
port-set_port a p w = set_port_in-Stamped a.family a p refl w.0 (omega (arith, w.1))

-- For a list that is not empty, the sequence number goes round the list of addresses, and a number
-- below its length gives the address at that place.
get_rotates :
    (a : Address) (l : List Address) (p i : ℕ)
    → (get (a ∷ l) p (i + length (a ∷ l)) ≡ get (a ∷ l) p i)
      × (i < length (a ∷ l) → get (a ∷ l) p i ≡ set_port (get_or (a ∷ l) i no_address) p)
unfolding get
get_rotates a l p i =
    let n = suc (length l) in
    let round : (i + n) % n ≡ i % n = grind arith in
    (rw round, λ h. rw (mod-eq_of_lt h, get_elem?-eq-get_or (a ∷ l) i no_address h))

same_family_eq : (f g : Family) → same_family f g ≡ true → f ≡ g
same_family_eq Family.unspec Family.unspec h = refl
same_family_eq Family.inet Family.inet h = refl
same_family_eq Family.inet6 Family.inet6 h = refl
same_family_eq (Family.other a) (Family.other b) h = ap Family.other (ground arith)
same_family_eq _ _ h = cc

take_port :
    (a b : Bytes) (n : ℕ)
    → take (suc (suc n)) a ≡ take (suc (suc n)) b
    → (get_or a 0 0 ≡ get_or b 0 0) × (get_or a 1 0 ≡ get_or b 1 0)
take_port [] [] n h = (refl, refl)
take_port (x ∷ []) (y ∷ []) n h = ground arith
take_port (x ∷ x' ∷ a) (y ∷ y' ∷ b) n h = ground arith
take_port _ _ n h = cc

port_bytes :
    (x y : Bytes) (n : ℕ)
    → some (equal (take (suc (suc n)) x) (take (suc (suc n)) y)) ≡ some true
    → some (get_or x 0 0 * 256 + get_or x 1 0) ≡ some (get_or y 0 0 * 256 + get_or y 1 0)
port_bytes x y n h =
    let (p, q) = take_port x y n ((equal_iff _ _).0 (some-injective _ _ h)) in
    λ i. some (p i * 256 + q i)
  where
    some-injective : (a b : Bool) → some a ≡ some b → a ≡ b
    some-injective a b h = cc

same_in :
    (f g : Family) (x y : Bytes)
    → IsInet f
    → same_address (record { family = f; body = x }) (record { family = g; body = y }) ≡ some true
    → (f ≡ g) × (port_in f x ≡ port_in g y)
unfolding same_address
same_in Family.inet Family.inet x y i h = (refl, port_bytes x y 12 h)
same_in Family.inet6 Family.inet6 x y i h = (refl, port_bytes x y 24 h)
same_in Family.unspec g x y i h = absurd i
same_in (Family.other n) g x y i h = absurd i
same_in Family.inet _ x y i h = cc
same_in Family.inet6 _ x y i h = cc

-- Addresses that compare equal have one family and one port.
pub same_address-port :
    (a b : Address)
    → IsInet a.family
    → same_address a b ≡ some true
    → (a.family ≡ b.family) × (port a ≡ port b)
unfolding port
same_address-port a b h e = same_in a.family b.family a.body b.body h e
