-- ===== src/Lines/Words.antt =====
-- The words of a text, as LineState::nextToken of apib/apib_lines.cc gives them one after another.
use apib.Prelude.{
  ℕ, zero, suc, ◌+◌, ◌<◌, ◌≤◌, ◌≡◌, inl, inr, refl, ap, Bool, Bool-cases, List, [], ◌∷◌, Bytes,
  arith, length, if◌then◌else◌,
}
use apib.Lines.{is_char}
use apib.Lines.View.{take_while}
use apib.Lines.Tokens.{other}

abbrev pub drop_while : (ℕ → Bool) → Bytes → Bytes
drop_while p [] = []
drop_while p (x ∷ xs) = if p x then drop_while p xs else x ∷ xs

module _ (toks : Bytes) where
  abbrev pub word : Bytes → Bytes
  word = take_while (other toks)

  abbrev pub behind_word : Bytes → Bytes
  behind_word x = drop_while (λ c. is_char c toks) (drop_while (other toks) x)

  -- The words behind a first one that is not empty.
  abbrev pub words_with : List Bytes → Bytes → List Bytes
  words_with rest [] = []
  words_with rest (c ∷ w) = (c ∷ w) ∷ rest

  -- The words of a text, at most `rounds`.
  unfoldable pub words : ℕ → Bytes → List Bytes
  words zero x = []
  words (suc rounds) x = words_with (words rounds (behind_word x)) (word x)

  length-word :
      (p : ℕ → Bool) (x : Bytes) → length (take_while p x) + length (drop_while p x) ≡ length x
  length-word p [] = refl
  length-word p (c ∷ x) = elim (Bool-cases (p c)) [
    | inl e ↦ rw e (omega (arith, length-word p x))
    | inr e ↦ rw e (omega arith)
  ]

  pub length-behind : (x : Bytes) → length (word x) + length (behind_word x) ≤ length x
  length-behind x = omega (
    arith,
    length-word (other toks) x,
    length-word (λ c. is_char c toks) (drop_while (other toks) x),
  )

  words_with-congr :
      (w : Bytes) (a b : List Bytes) → (0 < length w → a ≡ b) → words_with a w ≡ words_with b w
  words_with-congr [] a b h = refl
  words_with-congr (c ∷ w) a b h = ap (◌∷◌ (c ∷ w)) (h (omega arith))

  words-enough : (k m : ℕ) (x : Bytes) → length x < k → length x < m → words k x ≡ words m x
  unfolding words
  words-enough zero m x h h' = absurd (omega arith)
  words-enough (suc k) zero x h h' = absurd (omega arith)
  words-enough (suc k) (suc m) x h h' =
      let n = length-behind x in
      words_with-congr (word x) (words k (behind_word x)) (words m (behind_word x))
        λ pos. words-enough k m (behind_word x) (omega (arith, n)) (omega (arith, n))

  -- all the words of a text
  abbrev pub word_list : Bytes → List Bytes
  word_list x = words (suc (length x)) x

  pub words-word_list : (k : ℕ) (x : Bytes) → length x < k → words k x ≡ word_list x
  words-word_list k x h = words-enough k (suc (length x)) x h (omega arith)
