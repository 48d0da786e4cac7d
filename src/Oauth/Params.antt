-- ===== src/Oauth/Params.antt =====
-- apib/apib_oauth.cc: the normalised parameters do not depend on the order of those of the request.
use mathlib.Core.Logic.{∥∥₁_elim}
use mathlib.Core.List.{Perm, Permᴰ}
use mathlib.Core.List.Perm
use apib.Prelude.{
  ℕ, ◌≡◌, refl, sym, ap, ◌∙◌, true, false, Option, some, List, [], ◌∷◌, ◌++◌, append-nil,
  append_assoc, Bytes, arith, inl, inr, Bool-cases,
}
use apib.Oauth.{
  Param, compare_param, insert_param, sort_params, final_params, encode_param, add_oauth_params,
  build_base_string, base_url, request_params, write_params, UrlFields, OauthInfo, add_given,
}
use apib.Oauth.Order.{StrictOrder, asym, le_lt_trans, compare_param-StrictOrder}

abbrev order : StrictOrder compare_param
order = compare_param-StrictOrder

insert_param_comm :
    (p q : Param) (l : List Param)
    → insert_param p (insert_param q l) ≡ insert_param q (insert_param p l)
unfolding insert_param
insert_param_comm p q [] = ground (arith, asym order p q, order.connex p q)
insert_param_comm p q (r ∷ l) = ground (
  arith,
  insert_param_comm p q l,
  asym order p q,
  asym order q p,
  order.connex p q,
  le_lt_trans order p r q,
  le_lt_trans order q r p,
)

Params-set : IsSet (List Param)
Params-set = hlevel

sort_params-Permᴰ : {ps qs : List Param} → Permᴰ ps qs → sort_params ps ≡ sort_params qs
unfolding sort_params
sort_params-Permᴰ Permᴰ.nil = refl
sort_params-Permᴰ (Permᴰ.cons {a} {b} e h) = λ i. insert_param (e i) (sort_params-Permᴰ h i)
sort_params-Permᴰ (Permᴰ.swap {a} {b} {l = l} e f) = insert_param_comm a b (sort_params l) ∙ λ i.
    insert_param (f i) (insert_param (e i) (sort_params l))
sort_params-Permᴰ (Permᴰ.trans h k) = sort_params-Permᴰ h ∙ sort_params-Permᴰ k

pub sort_params-Perm : {ps qs : List Param} → Perm ps qs → sort_params ps ≡ sort_params qs
sort_params-Perm h = ∥∥₁_elim h (Params-set _ _) sort_params-Permᴰ

insert_param-perm : (p : Param) (l : List Param) → Perm (insert_param p l) (p ∷ l)
unfolding insert_param
insert_param-perm p [] = Perm.refl (p ∷ [])
insert_param-perm p (q ∷ l) = elim (Bool-cases (compare_param q p)) [
  | inl before ↦ rw before (Perm.trans (Perm.cons q (insert_param-perm p l)) (Perm.swap p q l))
  | inr after ↦ rw after (Perm.refl (p ∷ q ∷ l))
]

sort_params-perm : (ps : List Param) → Perm (sort_params ps) ps
unfolding sort_params
sort_params-perm [] = Perm.refl []
sort_params-perm (p ∷ ps) =
    Perm.trans (insert_param-perm p (sort_params ps)) (Perm.cons p (sort_params-perm ps))

-- no parameter stands before one that `compareParam` puts in front of it
abbrev pub IsSorted : List Param → Type 0
IsSorted [] = Unit
IsSorted (p ∷ []) = Unit
IsSorted (p ∷ q ∷ l) = (compare_param q p ≡ false) × IsSorted (q ∷ l)

insert_param-IsSorted : (p : Param) (l : List Param) → IsSorted l → IsSorted (insert_param p l)
unfolding insert_param
insert_param-IsSorted p [] h = tt
insert_param-IsSorted p (q ∷ []) h = ground (arith, asym order q p)
insert_param-IsSorted p (q ∷ r ∷ l) h =
    ground (arith, asym order q p, insert_param-IsSorted p (r ∷ l) h.1)

sort_params-IsSorted : (ps : List Param) → IsSorted (sort_params ps)
unfolding sort_params
sort_params-IsSorted [] = tt
sort_params-IsSorted (p ∷ ps) = insert_param-IsSorted p (sort_params ps) (sort_params-IsSorted ps)

-- What std::sort is asked for, and all that the arrangement can depend on.
pub sort_params-sorts : (ps : List Param) → Perm (sort_params ps) ps × IsSorted (sort_params ps)
sort_params-sorts ps = (sort_params-perm ps, sort_params-IsSorted ps)

pub final_params-perm : {ps qs : List Param} → Perm ps qs → final_params ps ≡ final_params qs
unfolding final_params
final_params-perm h = ap (write_params true) (sort_params-Perm (Perm.map encode_param h))

add_given-append :
    (a b : List Param) (name val : Bytes) → add_given (a ++ b) name val ≡ a ++ add_given b name val
add_given-append a b name [] = refl
add_given-append a b name (c ∷ cs) = append_assoc a b _

-- The signed parameters are those of the request, and others that do not depend on it.
pub add_oauth_params-append :
    (ps : List Param) (oauth : OauthInfo) (nonce : Bytes) (timestamp : ℕ)
    → add_oauth_params ps oauth nonce timestamp ≡ ps ++ add_oauth_params [] oauth nonce timestamp
unfolding add_oauth_params
add_oauth_params-append ps oauth nonce timestamp =
    ap (λ x. add_oauth_params x oauth nonce timestamp) (sym (append-nil ps))
    ∙ simp (add_given-append, append_assoc)

-- Two requests whose scheme, host and path are encoded alike, and whose parameters can be read and
-- are permutations of one another, have the same OAuth base string for one method, time, nonce and
-- key.
pub build_base_string-Perm :
    (u v : UrlFields) (method nonce : Bytes) (timestamp : ℕ) (body body' : Option Bytes)
    (oauth : OauthInfo) (ps qs : List Param)
    → ((base : Bytes) → base_url u base ≡ base_url v base)
    → request_params u body ≡ some ps
    → request_params v body' ≡ some qs
    → Perm ps qs
    → build_base_string u method timestamp nonce body oauth
      ≡ build_base_string v method timestamp nonce body' oauth
unfolding build_base_string
build_base_string-Perm u v method nonce timestamp body body' oauth ps qs e p q h =
    let pre = add_oauth_params-append ps oauth nonce timestamp in
    let pre' = add_oauth_params-append qs oauth nonce timestamp in
    let same = Perm.append_right (add_oauth_params [] oauth nonce timestamp) h in
    rw (p, q, pre, pre', final_params-perm same, e (method ++ (b'&' ∷ [])))
