-- ===== src/Addresses/Tests.antt =====
-- The theorems on addresses at concrete inputs.
use apib.Prelude.{ℕ, ◌≡◌, refl, ◌∷◌, replicate, equal}
use apib.Addresses.{Family, Address, port, same_address}
use apib.Addresses.Laws.{same_address-port}

-- an address of the first family that ends in a byte
abbrev host : ℕ → Address
host n = record { family = Family.inet; body = 0 ∷ 80 ∷ 127 ∷ 0 ∷ 0 ∷ n ∷ replicate 120 0 }

same_address-port_example : (Family.inet ≡ Family.inet) × (port (host 1) ≡ port (host 1))
unfolding same_address equal
same_address-port_example = same_address-port (host 1) (host 1) tt refl
