-- ===== src/Oauth/Order.antt =====
-- apib/apib_oauth.cc: the order of `compareParam` is strict and total, so that a sorted list of
-- parameters does not depend on the order in which they came.
use apib.Prelude.{◌≡◌, refl, Bool, true, false, [], ◌∷◌, Bytes, arith, inl, inr, Bool-cases}
use apib.Oauth.{Param, less, compare_param}

pub record StrictOrder {ℓ} {A : Type ℓ} (lt : A → A → Bool) : Type ℓ where
  pub irrefl : (a : A) → lt a a ≡ false
  pub trans : (a b c : A) → lt a b ≡ true → lt b c ≡ true → lt a c ≡ true
  pub connex : (a b : A) → lt a b ≡ false → lt b a ≡ false → a ≡ b

module _ {ℓ} {A : Type ℓ} {lt : A → A → Bool} (o : StrictOrder lt) where
  pub asym : (a b : A) → lt a b ≡ true → lt b a ≡ false
  asym a b h = elim (Bool-cases (lt b a)) [
    | inl back ↦ absurd (let t = o.trans a b a h back in cc (o.irrefl a))
    | inr e ↦ e
  ]

  -- a ≤ b < c
  pub le_lt_trans : (a b c : A) → lt b a ≡ false → lt b c ≡ true → lt a c ≡ true
  le_lt_trans a b c h k = elim (Bool-cases (lt a b)) [
    | inl below ↦ o.trans a b c below k
    | inr e ↦ rw (o.connex a b e h) k
  ]

less_irrefl : (a : Bytes) → less a a ≡ false
unfolding less
less_irrefl [] = refl
less_irrefl (x ∷ a) = ground (arith, less_irrefl a)

less_trans : (a b c : Bytes) → less a b ≡ true → less b c ≡ true → less a c ≡ true
unfolding less
less_trans [] [] c h k = cc
less_trans [] (y ∷ b) [] h k = cc
less_trans [] (y ∷ b) (z ∷ c) h k = refl
less_trans (x ∷ a) [] c h k = cc
less_trans (x ∷ a) (y ∷ b) [] h k = cc
less_trans (x ∷ a) (y ∷ b) (z ∷ c) h k = ground (arith, less_trans a b c)

less_connex : (a b : Bytes) → less a b ≡ false → less b a ≡ false → a ≡ b
unfolding less
less_connex [] [] h k = refl
less_connex [] (y ∷ b) h k = cc
less_connex (x ∷ a) [] h k = cc
less_connex (x ∷ a) (y ∷ b) h k = ground (arith, less_connex a b)

pub less-StrictOrder : StrictOrder less
less-StrictOrder = record { irrefl = less_irrefl; trans = less_trans; connex = less_connex }

compare_irrefl : (p : Param) → compare_param p p ≡ false
unfolding compare_param
compare_irrefl p = rw (less_irrefl p.0, less_irrefl p.1)

compare_connex : (p q : Param) → compare_param p q ≡ false → compare_param q p ≡ false → p ≡ q
unfolding compare_param
compare_connex p q h k = ground (arith, less_connex p.0 q.0, less_connex p.1 q.1)

compare_trans :
    (p q r : Param) → compare_param p q ≡ true → compare_param q r ≡ true → compare_param p r ≡ true
unfolding compare_param
compare_trans p q r h k = ground (
  arith,
  less_trans p.0 q.0 r.0,
  less_trans p.1 q.1 r.1,
  less_connex p.0 q.0,
  less_connex q.0 r.0,
  less_connex p.0 r.0,
  asym less-StrictOrder p.0 r.0,
  le_lt_trans less-StrictOrder p.0 q.0 r.0,
  less_trans q.0 r.0 p.0,
  less_trans r.0 p.0 q.0,
)

-- compareParam is a strict total order, as std::sort asks for.
pub compare_param-StrictOrder : StrictOrder compare_param
compare_param-StrictOrder = record {
  irrefl = compare_irrefl;
  trans = compare_trans;
  connex = compare_connex;
}
