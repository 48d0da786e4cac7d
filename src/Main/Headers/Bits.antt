-- ===== src/Main/Headers/Bits.antt =====
-- apib/apib_main.cc, SetHeaders: a set of six bits, one for each header that apib would send.
use apib.Prelude.{
  ℕ, zero, suc, ◌+◌, ◌≤◌, ◌<◌, ◌^◌, ◌≡◌, refl, sym, subst, Bool, true, false, not, ◌&&◌, ◌||◌,
  Bool-cases, inl, inr, arith, ◌==◌, ltb, ltb→lt, if◌then◌else◌,
}
use apib.Connection.{is_set}
use apib.Main.{mark}

-- whether a test holds of the `size` numbers from `first` on
unfoldable pub throughout : (ℕ → Bool) → ℕ → ℕ → Bool
throughout test first zero = true
throughout test first (suc size) = if test first then throughout test (suc first) size else false

throughout-at :
    (test : ℕ → Bool) (size first x : ℕ)
    → throughout test first size ≡ true
    → first ≤ x
    → x < first + size
    → test x ≡ true
unfolding throughout
throughout-at test zero first x h low high = absurd (omega arith)
throughout-at test (suc size) first x h low high = elim (Bool-cases (test first)) [
  | inl holds ↦ elim (Bool-cases (first == x)) [
    | inl here ↦ subst (λ n. test n ≡ true) (ground arith) holds
    | inr later ↦ throughout-at test size (suc first) x (rw holds at h) (ground arith) (omega arith)
  ]
  | inr fails ↦ (let bad = rw fails at h in cc)
]

abbrev pub upto : ℕ → (ℕ → Bool) → Bool
upto n test = throughout test 0 n

-- six bits
abbrev pub same : Bool → Bool → Bool
same true b = b
same false b = not b

-- every set of six bits and every two bits
mark_ok : ℕ → ℕ → ℕ → Bool
mark_ok set i j =
    ltb (mark set (2 ^ i)) 64
    && same (is_set (mark set (2 ^ i)) (2 ^ j)) (is_set set (2 ^ j) || i == j)

mark_table : upto 64 (λ set. upto 6 (λ i. upto 6 (λ j. mark_ok set i j))) ≡ true
unfolding throughout mark_ok
mark_table = refl

same→eq : (a b : Bool) → same a b ≡ true → a ≡ b
same→eq true b h = sym h
same→eq false true h = cc
same→eq false false h = refl

pub mark-is_set :
    (set i j : ℕ)
    → set < 64
    → i < 6
    → j < 6
    → (mark set (2 ^ i) < 64) × (is_set (mark set (2 ^ i)) (2 ^ j) ≡ (is_set set (2 ^ j) || i == j))
unfolding mark_ok
mark-is_set set i j h k l =
    let row = throughout-at _ 64 0 set mark_table (omega arith) h in
    let cell = throughout-at _ 6 0 i row (omega arith) k in
    let ok : mark_ok set i j ≡ true = throughout-at _ 6 0 j cell (omega arith) l in
    let both =
      conj (ltb (mark set (2 ^ i)) 64)
        (same (is_set (mark set (2 ^ i)) (2 ^ j)) (is_set set (2 ^ j) || i == j)) ok in
    (ltb→lt _ _ both.0, same→eq _ _ both.1)
  where
    conj : (a b : Bool) → (a && b) ≡ true → (a ≡ true) × (b ≡ true)
    conj true b h = (refl, h)
    conj false b h = cc

bits_table : upto 6 (λ i. not (0 == 2 ^ i) && upto 6 (λ j. same (2 ^ i == 2 ^ j) (i == j))) ≡ true
unfolding throughout
bits_table = refl

pub bits_row :
    (i : ℕ) → i < 6 → ((0 == 2 ^ i) ≡ false) × (upto 6 (λ j. same (2 ^ i == 2 ^ j) (i == j)) ≡ true)
bits_row i h = parts (0 == 2 ^ i) _ (throughout-at _ 6 0 i bits_table (omega arith) h)
  where
    parts : (a b : Bool) → (not a && b) ≡ true → (a ≡ false) × (b ≡ true)
    parts true b e = cc
    parts false b e = (refl, e)

pub bits_differ : (i j : ℕ) → i < 6 → j < 6 → (2 ^ i == 2 ^ j) ≡ (i == j)
bits_differ i j h k = same→eq _ _ (throughout-at _ 6 0 j (bits_row i h).1 (omega arith) k)
