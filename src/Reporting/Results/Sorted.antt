-- ===== src/Reporting/Results/Sorted.antt =====
-- apib/apib_reporting.cc, what ReportResults asks of std::sort and std::accumulate: an ascending list,
-- its ends and its average.
use mathlib.Core.List.{Mem, Perm, mem-cons, mem-cons_self, mem-cons_of_mem, not-mem-nil}
use mathlib.Core.List.Perm
use mathlib.Core.Logic.Or
use native.Mathlib.Bridge.{le_prop}
use apib.Prelude.{
  ℕ, zero, suc, true, some, ◌+◌, ◌^◌, ◌-◌, ◌*◌, ◌/◌, ◌≤◌, ◌<◌, ◌≡◌, refl, ap, ◌∙◌, Bool-cases, inl,
  inr, List, [], ◌∷◌, length, get_or, All, ltb, arith,
}
use apib.Reporting.Results.{insert, sort, sum, get_average_latency}

abbrev pub IsBelow : ℕ → List ℕ → Type 0
IsBelow x = All (λ y. x ≤ y)

abbrev pub IsSorted : List ℕ → Type 0
IsSorted [] = Unit
IsSorted (x ∷ xs) = IsBelow x xs × IsSorted xs

pub IsBelow-trans : (x y : ℕ) (ys : List ℕ) → x ≤ y → IsBelow y ys → IsBelow x ys
IsBelow-trans x y [] h b = tt
IsBelow-trans x y (z ∷ zs) h b = (omega (arith, b.0), IsBelow-trans x y zs h b.1)

pub IsBelow-insert : (x y : ℕ) (ys : List ℕ) → x ≤ y → IsBelow x ys → IsBelow x (insert y ys)
unfolding insert
IsBelow-insert x y [] h b = (h, tt)
IsBelow-insert x y (z ∷ zs) h b = elim (Bool-cases (ltb z y)) [
  | inl e ↦ rw e (b.0, IsBelow-insert x y zs h b.1)
  | inr e ↦ rw e (h, b)
]

pub insert-IsSorted : (x : ℕ) (xs : List ℕ) → IsSorted xs → IsSorted (insert x xs)
unfolding insert
insert-IsSorted x [] s = (tt, tt)
insert-IsSorted x (y ∷ ys) s = elim (Bool-cases (ltb y x)) [
  | inl e ↦ rw e (IsBelow-insert y x ys (ground arith) s.0, insert-IsSorted x ys s.1)
  | inr e ↦ (let h : x ≤ y = ground arith in rw e ((h, IsBelow-trans x y ys h s.0), s))
]

pub sort-IsSorted : (xs : List ℕ) → IsSorted (sort xs)
unfolding sort
sort-IsSorted [] = tt
sort-IsSorted (x ∷ xs) = insert-IsSorted x (sort xs) (sort-IsSorted xs)

pub insert-perm : (x : ℕ) (xs : List ℕ) → Perm (insert x xs) (x ∷ xs)
unfolding insert
insert-perm x [] = Perm.refl (x ∷ [])
insert-perm x (y ∷ ys) = elim (Bool-cases (ltb y x)) [
  | inl e ↦ rw e (Perm.trans (Perm.cons y (insert-perm x ys)) (Perm.swap x y ys))
  | inr e ↦ rw e (Perm.refl (x ∷ y ∷ ys))
]

pub sort-perm : (xs : List ℕ) → Perm (sort xs) xs
unfolding sort
sort-perm [] = Perm.refl []
sort-perm (x ∷ xs) = Perm.trans (insert-perm x (sort xs)) (Perm.cons x (sort-perm xs))

pub length-insert : (x : ℕ) (xs : List ℕ) → length (insert x xs) ≡ suc (length xs)
unfolding insert
length-insert x [] = refl
length-insert x (y ∷ ys) = elim (Bool-cases (ltb y x)) [
  | inl e ↦ rw e (ap suc (length-insert x ys))
  | inr e ↦ rw e refl
]

pub length-sort : (xs : List ℕ) → length (sort xs) ≡ length xs
unfolding sort
length-sort [] = refl
length-sort (x ∷ xs) = length-insert x (sort xs) ∙ ap suc (length-sort xs)

pub get_or-IsBelow :
    (x : ℕ) (xs : List ℕ) (i : ℕ) → IsBelow x xs → i < length xs → x ≤ get_or xs i 0
get_or-IsBelow x [] i b h = absurd (omega arith)
get_or-IsBelow x (y ∷ ys) zero b h = b.0
get_or-IsBelow x (y ∷ ys) (suc i) b h = get_or-IsBelow x ys i b.1 (omega arith)

pub get_or_mono :
    (xs : List ℕ) (i j : ℕ) → IsSorted xs → i ≤ j → j < length xs → get_or xs i 0 ≤ get_or xs j 0
get_or_mono [] i j s h k = absurd (omega arith)
get_or_mono (x ∷ xs) zero zero s h k = omega arith
get_or_mono (x ∷ xs) zero (suc j) s h k = get_or-IsBelow x xs j s.0 (omega arith)
get_or_mono (x ∷ xs) (suc i) zero s h k = absurd (omega arith)
get_or_mono (x ∷ xs) (suc i) (suc j) s h k = get_or_mono xs i j s.1 (omega arith) (omega arith)

pub mem-get_or : (xs : List ℕ) (i : ℕ) → i < length xs → Mem (get_or xs i 0) xs
mem-get_or [] i h = absurd (omega arith)
mem-get_or (x ∷ xs) zero h = mem-cons_self
mem-get_or (x ∷ xs) (suc i) h = mem-cons_of_mem x (mem-get_or xs i (omega arith))

pub head_least : (x : ℕ) (xs : List ℕ) → IsSorted xs → Mem x xs → get_or xs 0 0 ≤ x
head_least x [] s m = absurd (not-mem-nil m)
head_least x (y ∷ ys) s m =
    Or.elim le_prop (mem-cons.0 m) (λ e. rw e (omega arith)) (λ k. below x ys s.0 k)
  where
    below : (x : ℕ) (ys : List ℕ) → IsBelow y ys → Mem x ys → y ≤ x
    below x [] b m = absurd (not-mem-nil m)
    below x (z ∷ zs) b m = Or.elim le_prop (mem-cons.0 m) (λ e. rw e (b.0)) (below x zs b.1)

pub last_greatest : (x : ℕ) (xs : List ℕ) → IsSorted xs → Mem x xs → x ≤ get_or xs (length xs - 1) 0
last_greatest x [] s m = absurd (not-mem-nil m)
last_greatest x (y ∷ []) s m =
    Or.elim le_prop (mem-cons.0 m) (λ e. rw e (omega arith)) (λ k. absurd (not-mem-nil k))
last_greatest x (y ∷ z ∷ zs) s m =
    let later = last_greatest x (z ∷ zs) s.1 in
    let next : length (y ∷ z ∷ zs) - 1 ≡ suc (length (z ∷ zs) - 1) = omega arith in
    Or.elim le_prop (mem-cons.0 m)
      (λ e.
        rw e (get_or_mono (y ∷ z ∷ zs) 0 (length (y ∷ z ∷ zs) - 1) s (omega arith) (omega arith)))
      (λ k. rw next (later k))

pub sum_bounds :
    (lo hi : ℕ) (xs : List ℕ)
    → ((x : ℕ) → Mem x xs → (lo ≤ x) × (x ≤ hi))
    → (lo * length xs ≤ sum xs) × (sum xs ≤ hi * length xs)
sum_bounds lo hi [] h = (omega arith, omega arith)
sum_bounds lo hi (x ∷ xs) h =
    let (p, q) = sum_bounds lo hi xs (λ y m. h y (mem-cons_of_mem x m)) in
    let (a, b) = h x mem-cons_self in (grind arith, grind arith)

pub quotient_bounds :
    (lo hi s n : ℕ) → 0 < n → lo * n ≤ s → s ≤ hi * n → (lo ≤ s / n) × (s / n ≤ hi)
quotient_bounds lo hi s n pos p q = (grind arith, grind arith)

pub average_bounds :
    (lo hi : ℕ) (xs : List ℕ)
    → 0 < length xs
    → sum xs < 2 ^ 63
    → ((x : ℕ) → Mem x xs → (lo ≤ x) × (x ≤ hi))
    → (average : ℕ) × (get_average_latency xs ≡ some average) × (lo ≤ average) × (average ≤ hi)
unfolding get_average_latency
average_bounds lo hi [] pos small h = absurd (omega arith)
average_bounds lo hi (x ∷ xs) pos small h =
    let (p, q) = sum_bounds lo hi (x ∷ xs) h in
    let (a, b) = quotient_bounds lo hi (sum (x ∷ xs)) (length (x ∷ xs)) pos p q in
    let fits : ltb (sum (x ∷ xs)) (2 ^ 63) ≡ true = ground arith in
    (sum (x ∷ xs) / length (x ∷ xs), rw fits refl, a, b)

pub sum-insert : (x : ℕ) (xs : List ℕ) → sum (insert x xs) ≡ x + sum xs
unfolding insert
sum-insert x [] = refl
sum-insert x (y ∷ ys) = elim (Bool-cases (ltb y x)) [
  | inl e ↦ (let ih = sum-insert x ys in rw e (omega (arith, ih)))
  | inr e ↦ rw e refl
]

pub sum-sort : (xs : List ℕ) → sum (sort xs) ≡ sum xs
unfolding sort
sum-sort [] = refl
sum-sort (x ∷ xs) = sum-insert x (sort xs) ∙ ap (λ n. x + n) (sum-sort xs)
