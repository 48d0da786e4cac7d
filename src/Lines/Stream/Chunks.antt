-- ===== src/Lines/Stream/Chunks.antt =====
-- The reading loop over several reads: what the clients of apib/apib_lines.h see of a text that
-- comes a little bit at a time.
use apib.Prelude.{
  ℕ, ◌+◌, ◌-◌, ◌<◌, ◌≤◌, Bool, refl, ◌≡◌, sym, ap, ◌∙◌, true, false, ◌&&◌, Option, some, List, [],
  ◌∷◌, ◌++◌, append_assoc, append-nil, Bytes, arith, length, All, All-append, inl, inr, ◌==◌, ◌>>=◌,
  subst, Bool-cases, take-all, flatten,
}
use apib.Lines.{LineState, is_char, newlines}
use apib.Lines.View.{IsPlain, IsNewline}
use apib.Lines.Stream.{receive}
use apib.Lines.Stream.Spec.{
  lines, lines-plain, push, starts_newline, ends_newline, lines-append, lines-append_seam,
  ends_newline-Ended,
}
use apib.Lines.Stream.Drain.{NoNul, NoNul-append, Waiting, taken, receive-lines}

-- The reading loop over reads that deliver these chunks: all the lines that its body sees.
pub receive_all : LineState → List Bytes → Option (List Bytes × LineState)
receive_all s [] = some ([], s)
receive_all s (c ∷ cs) = receive s c >>= λ a. receive_all a.2 cs >>= λ b. some (a.0 ++ b.0, b.1)

-- Every chunk fits into the buffer behind what waits there, and no seam cuts a run of newlines.
abbrev pub IsSmooth : ℕ → Bytes → List Bytes → Type 0
IsSmooth size rest [] = Unit
IsSmooth size rest (c ∷ cs) =
    (length rest + length c ≤ size)
    × ((ends_newline (rest ++ c) && starts_newline (flatten cs)) ≡ false)
    × IsSmooth size (lines (rest ++ c)).1 cs

push-All : (P : ℕ → Type 0) (c : ℕ) (a : List Bytes × Bytes) → P c → All P a.1 → All P (push c a).1
push-All P c ([], rest) p h = (p, h)
push-All P c (l ∷ ls, rest) p h = h

pub rest-All : (P : ℕ → Type 0) (xs : Bytes) → All P xs → All P (lines xs).1
unfolding lines
rest-All P [] h = tt
rest-All P (c ∷ cs) h =
    let ih = rest-All P cs h.1 in
    elim (Bool-cases (is_char c newlines)) [
      | inl end ↦ elim (Bool-cases (starts_newline cs)) [
        | inl run ↦ rw (end, run) ih
        | inr stop ↦ rw (end, stop) ih
      ]
      | inr plain ↦ rw plain (push-All P c (lines cs) h.0 ih)
    ]

push-IsPlain :
    (c : ℕ) (a : List Bytes × Bytes) → IsPlain c → All IsPlain a.1 → All IsPlain (push c a).1
push-IsPlain c a p h = push-All IsPlain c a p h

pub rest-IsPlain : (xs : Bytes) → All IsPlain (lines xs).1
unfolding lines
rest-IsPlain [] = tt
rest-IsPlain (c ∷ cs) =
    let ih = rest-IsPlain cs in
    elim (Bool-cases (is_char c newlines)) [
      | inl end ↦ elim (Bool-cases (starts_newline cs)) [
        | inl run ↦ rw (end, run) ih
        | inr stop ↦ rw (end, stop) ih
      ]
      | inr plain ↦ rw plain (push-IsPlain c (lines cs) plain ih)
    ]

-- Where blank lines stand: none, but the first line of a text that starts with a newline.
abbrev Filled : Bytes → Type 0
Filled l = 0 < length l

abbrev pub BlankFirst : Bool → List Bytes → Type 0
BlankFirst false ls = All Filled ls
BlankFirst true [] = ⊥
BlankFirst true (l ∷ ls) = (length l ≡ 0) × All Filled ls

push-Filled :
    (b : Bool) (c : ℕ) (a : List Bytes × Bytes) → BlankFirst b a.0 → All Filled (push c a).0
push-Filled false c ([], rest) h = tt
push-Filled true c ([], rest) h = absurd h
push-Filled false c (l ∷ ls, rest) h = (omega arith, h.1)
push-Filled true c (l ∷ ls, rest) h = (omega arith, h.1)

lines-BlankFirst : (xs : Bytes) → BlankFirst (starts_newline xs) (lines xs).0
unfolding lines
lines-BlankFirst [] = tt
lines-BlankFirst (c ∷ cs) =
    let ih = lines-BlankFirst cs in
    elim (Bool-cases (is_char c newlines)) [
      | inl end ↦ elim (Bool-cases (starts_newline cs)) [
        | inl run ↦ rw (end, run) (rw run at ih)
        | inr stop ↦ rw (end, stop) (refl, rw stop at ih)
      ]
      | inr plain ↦ rw plain (push-Filled (starts_newline cs) c (lines cs) ih)
    ]

pub taken-all : (size : ℕ) (rest c : Bytes) → length rest + length c ≤ size → taken size rest c ≡ c
taken-all size rest c h = take-all (size - length rest) c (omega arith)

receive_all-whole :
    (cs : List Bytes) (s : LineState) (size : ℕ) (rest : Bytes)
    → Waiting s size rest
    → All IsPlain rest
    → NoNul (rest ++ flatten cs)
    → IsSmooth size rest cs
    → let spec = lines (rest ++ flatten cs) in
      (s' : LineState) × (receive_all s cs ≡ some (spec.0, s')) × Waiting s' size spec.1
unfolding receive_all
receive_all-whole [] s size rest w p z h =
    let e = ap lines (append-nil rest) ∙ lines-plain rest p in
    (s, rw e, subst (λ x. Waiting s size x.1) (sym e) w)
receive_all-whole (c ∷ cs) s size rest w p z h =
    let regroup = append_assoc rest c (flatten cs) in
    let z' = NoNul-append (rest ++ c) (flatten cs) (subst NoNul (sym regroup) z) in
    let t = taken-all size rest c h.0 in
    let (s', e, w') = receive-lines s size rest c w (rw t (z'.0)) in
    let spec = lines (rest ++ c) in
    let w'' = subst (λ x. Waiting s' size (lines (rest ++ x)).1) t w' in
    let (s'', f, v) =
      receive_all-whole cs s' size spec.1 w'' (rest-IsPlain (rest ++ c))
        (All-append (λ c. (c == 0) ≡ false) spec.1 (flatten cs)
          (rest-All (λ c. (c == 0) ≡ false) (rest ++ c) z'.0) z'.1)
        h.2 in
    let whole = ap lines (sym regroup) ∙ lines-append (rest ++ c) (flatten cs) h.1 in
    (s'', rw (e, t, f, whole), subst (λ x. Waiting s'' size x.1) (sym whole) v)

-- For an empty or waiting buffer outside HTTP mode and a text without NULs: however the text is
-- cut into reads that fit behind what waits and split no run of newlines, the loop over next and
-- consume sees exactly the lines of the whole text, of which none is empty but the first of a text
-- that starts with a newline, and keeps the unterminated rest.
pub receive_all-lines :
    (cs : List Bytes) (s : LineState) (size : ℕ) (rest : Bytes)
    → Waiting s size rest
    → All IsPlain rest
    → NoNul (rest ++ flatten cs)
    → IsSmooth size rest cs
    → let text = rest ++ flatten cs in
      let spec = lines text in
      (s' : LineState) × (receive_all s cs ≡ some (spec.0, s'))
      × Waiting s' size spec.1
      × BlankFirst (starts_newline text) spec.0
receive_all-lines cs s size rest w p z h =
    let (s', e, w') = receive_all-whole cs s size rest w p z h in
    (s', e, w', lines-BlankFirst (rest ++ flatten cs))

-- For an empty buffer that both reads fit into and texts without NULs: a run of newlines that two
-- reads split shows as one more line, an empty one, than the same text read at once.
pub receive_all-seam :
    (xs : Bytes) (y : ℕ) (ys : Bytes) (s : LineState) (size : ℕ)
    → Waiting s size []
    → NoNul xs
    → NoNul (y ∷ ys)
    → length xs ≤ size
    → length (y ∷ ys) ≤ size
    → ends_newline xs ≡ true
    → IsNewline y
    → (t : List Bytes) × (s' : LineState) × (receive_all s (xs ∷ (y ∷ ys) ∷ [])
        ≡ some ((lines xs).0 ++ ([] ∷ t), s'))
      × ((lines (xs ++ (y ∷ ys))).0 ≡ (lines xs).0 ++ t)
unfolding receive_all
receive_all-seam xs y ys s size w zx zy hx hy k n =
    let t₁ = taken-all size [] xs (omega arith) in
    let t₂ = taken-all size [] (y ∷ ys) (omega arith) in
    let (l, ls, ended) = ends_newline-Ended xs k in
    let no_rest : (lines xs).1 ≡ [] = ap (λ a. a.1) ended in
    let (s₁, e₁, w₁) = receive-lines s size [] xs w (rw t₁ zx) in
    let w₁' = subst (Waiting s₁ size) (ap (λ x. (lines x).1) t₁ ∙ no_rest) w₁ in
    let (s₂, e₂, w₂) = receive-lines s₁ size [] (y ∷ ys) w₁' (rw t₂ zy) in
    let (t, f, g) = lines-append_seam xs y ys k n in
    let f' : (lines (y ∷ ys)).0 ≡ [] ∷ t = rw no_rest at f in
    (t, s₂, rw (e₁, t₁, e₂, t₂, append-nil, f'), ap (λ a. a.0) g)
