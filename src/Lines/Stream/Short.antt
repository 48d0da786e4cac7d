-- ===== src/Lines/Stream/Short.antt =====
-- The clients of apib/apib_lines.h whose lines are each shorter than the buffer: the seam between two
-- reads, and the room that there is for the next one.
use apib.Prelude.{
  ℕ, ◌-◌, ◌<◌, ◌≤◌, ◌≡◌, ◌⊎◌, refl, sym, ap, ◌∙◌, subst, true, false, ◌&&◌, Bool-cases, inl, inr,
  List, [], ◌∷◌, ◌++◌, Bytes, arith, length, All, drop, length-take, length-drop,
}
use apib.Lines.{LineState, read_stream, is_char, newlines}
use apib.Lines.View.{IsPlain, IsNewline}
use apib.Lines.Stream.Spec.{
  lines, lines-append, lines-append_seam, push, step_plain, ends_newline, starts_newline,
}
use apib.Lines.Stream.Drain.{Waiting, taken}
use apib.Lines.Stream.Chunks.{rest-IsPlain}

-- no line of a text fills a buffer of this size, nor does what is behind the last
abbrev pub AreShort : ℕ → List Bytes × Bytes → Type 0
AreShort size (ls, rest) = All (λ l. length l < size) ls × (length rest < size)

-- Two parts of a text meet inside a run of newlines, or they do not.
abbrev pub AtSeam : Bytes → Bytes → Type 0
AtSeam xs ys =
    (((ends_newline xs && starts_newline ys) ≡ false)
      ⊎ ((y : ℕ) × (zs : Bytes) × (ys ≡ y ∷ zs) × (ends_newline xs ≡ true) × IsNewline y))

pub seam_cases : (xs ys : Bytes) → AtSeam xs ys
seam_cases xs [] = inl (ground arith)
seam_cases xs (y ∷ ys) = elim (Bool-cases (ends_newline xs)) [
  | inl e ↦ elim (Bool-cases (is_char y newlines)) [
    | inl n ↦ inr (y, ys, refl, e, n)
    | inr n ↦ inl (rw (e, n))
  ]
  | inr e ↦ inl (rw e)
]

-- the first line, or what there is of it
abbrev pub first : List Bytes × Bytes → Bytes
first ([], rest) = rest
first (l ∷ ls, rest) = l

first-push : (c : ℕ) (a : List Bytes × Bytes) → first (push c a) ≡ c ∷ first a
first-push c ([], rest) = refl
first-push c (l ∷ ls, rest) = refl

pub first-AreShort : (size : ℕ) (a : List Bytes × Bytes) → AreShort size a → length (first a) < size
first-AreShort size ([], rest) h = h.1
first-AreShort size (l ∷ ls, rest) h = h.0.0

pub length-first : (r ys : Bytes) → All IsPlain r → length r ≤ length (first (lines (r ++ ys)))
length-first [] ys h = omega arith
length-first (c ∷ r) ys h =
    let ih = length-first r ys h.1 in
    rw (step_plain c (r ++ ys) (h.0), first-push c (lines (r ++ ys))) (omega (arith, ih))

All-right :
    (size : ℕ) (xs ys : List Bytes)
    → All (λ l. length l < size) (xs ++ ys)
    → All (λ l. length l < size) ys
All-right size [] ys h = h
All-right size (x ∷ xs) ys h = All-right size xs ys h.1

-- what is behind the last line of a part waits in front of what follows
pub AreShort-seam :
    (size : ℕ) (xs ys : Bytes)
    → AreShort size (lines (xs ++ ys))
    → (length (lines xs).1 < size) × AreShort size (lines ((lines xs).1 ++ ys))
AreShort-seam size xs ys h =
    let rest = (lines xs).1 in
    let later : AreShort size (lines (rest ++ ys)) = elim (seam_cases xs ys) [
      | inl apart ↦
          (let h' = subst (AreShort size) (lines-append xs ys apart) h in
            (All-right size (lines xs).0 (lines (rest ++ ys)).0 h'.0, h'.1))
      | inr (y, zs, e, ended, n) ↦
          (let (t, f, g) = lines-append_seam xs y zs ended n in
            let h' = subst (AreShort size) (ap (λ x. lines (xs ++ x)) e ∙ g) h in
            subst (λ x. AreShort size (lines (rest ++ x))) (sym e)
              (
                subst (All (λ l. length l < size)) (sym f)
                    (omega (arith, h'.1), All-right size (lines xs).0 t h'.0),
                h'.1,
              ))
    ] in
    (
      (let k = length-first rest ys (rest-IsPlain xs) in
          omega (arith, k, first-AreShort size (lines (rest ++ ys)) later)),
      later,
    )

pub read_stream-parts :
    (s : LineState) (size : ℕ) (rest input : Bytes)
    → Waiting s size rest
    → ((read_stream s input).0 ≡ length (taken size rest input))
      × ((read_stream s input).2 ≡ drop (size - length rest) input)
unfolding read_stream
read_stream-parts s size rest input w =
    let n : s.buf_size - s.buf_len ≡ size - length rest = omega (arith, w.view.filled, w.size_is) in
    (rw n refl, rw n refl)

pub length-taken :
    (size : ℕ) (rest : Bytes) (i : ℕ) (is : Bytes)
    → length rest < size
    → (0 < length (taken size rest (i ∷ is)))
      × (length (drop (size - length rest) (i ∷ is)) ≤ length is)
length-taken size rest i is h = (
  omega (arith, length-take (size - length rest) (i ∷ is)),
  omega (arith, length-drop (size - length rest) (i ∷ is)),
)
