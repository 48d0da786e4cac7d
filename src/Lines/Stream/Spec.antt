-- ===== src/Lines/Stream/Spec.antt =====
-- What apib/apib_lines.cc is for, with no buffer: the lines of a text, and its unterminated rest.
use apib.Prelude.{
  ℕ, ◌<◌, ◌≡◌, refl, sym, ap, ◌∙◌, Bool, true, false, ◌&&◌, List, [], ◌∷◌, ◌++◌, Bytes, arith,
  length, All, if◌then◌else◌, Bool-cases, inl, inr, ◌⊎◌,
}
use apib.Lines.{is_char, newlines}
use apib.Lines.View.{IsNewline, IsPlain, StartsPlain}

abbrev pub starts_newline : Bytes → Bool
starts_newline [] = false
starts_newline (c ∷ cs) = is_char c newlines

-- a byte in front of a text, in its first line or in its rest
abbrev pub push : ℕ → List Bytes × Bytes → List Bytes × Bytes
push c ([], rest) = ([], c ∷ rest)
push c (l ∷ ls, rest) = ((c ∷ l) ∷ ls, rest)

-- A run of newlines ends one line, which may be empty.
unfoldable pub lines : Bytes → List Bytes × Bytes
lines [] = ([], [])
lines (c ∷ cs) =
    let r = lines cs in
    if is_char c newlines then if starts_newline cs then r else ([] ∷ r.0, r.1) else push c r

pub lines-plain : (xs : Bytes) → All IsPlain xs → lines xs ≡ ([], xs)
unfolding lines
lines-plain [] h = refl
lines-plain (x ∷ xs) h = rw (h.0, lines-plain xs h.1)

starts_newline-plain : (r : Bytes) → StartsPlain r → starts_newline r ≡ false
starts_newline-plain [] h = refl
starts_newline-plain (c ∷ r) h = h

lines-newlines :
    (n : ℕ) (ns r : Bytes)
    → All IsNewline (n ∷ ns)
    → StartsPlain r
    → lines (n ∷ (ns ++ r)) ≡ ([] ∷ (lines r).0, (lines r).1)
unfolding lines
lines-newlines n [] r h p = rw (h.0, starts_newline-plain r p)
lines-newlines n (m ∷ ns) r h p = rw (h.0, h.1.0) (rw (h.1.0) at (lines-newlines m ns r h.1 p))

pub lines-cut :
    (l ns r : Bytes)
    → All IsPlain l
    → All IsNewline ns
    → 0 < length ns
    → StartsPlain r
    → lines (l ++ (ns ++ r)) ≡ (l ∷ (lines r).0, (lines r).1)
unfolding lines
lines-cut [] [] r hl hn pos p = absurd (omega arith)
lines-cut [] (n ∷ ns) r hl hn pos p = lines-newlines n ns r hn p
lines-cut (x ∷ l) ns r hl hn pos p = rw (hl.0, lines-cut l ns r hl.1 hn pos p)

-- A text holds no newline, or splits at the first one.
pub record Cut (xs : Bytes) : Type 0 where
  pub l : Bytes
  pub ns : Bytes
  pub r : Bytes
  pub splits : xs ≡ l ++ (ns ++ r)
  pub plain : All IsPlain l
  pub ends : All IsNewline ns
  pub some_end : 0 < length ns
  pub next_plain : StartsPlain r

record Run (xs : Bytes) : Type 0 where
  ns : Bytes
  r : Bytes
  splits : xs ≡ ns ++ r
  ends : All IsNewline ns
  next_plain : StartsPlain r

newline-Run : (xs : Bytes) → Run xs
newline-Run [] = record { ns = []; r = []; splits = refl; ends = tt; next_plain = tt }
newline-Run (x ∷ xs) = elim (Bool-cases (is_char x newlines)) [
  | inl end ↦
      (let t = newline-Run xs in
        record {
          ns = x ∷ t.ns;
          r = t.r;
          splits = ap (◌∷◌ x) t.splits;
          ends = (end, t.ends);
          next_plain = t.next_plain;
        })
  | inr plain ↦ record { ns = []; r = x ∷ xs; splits = refl; ends = tt; next_plain = plain }
]

Cut-newline : (x : ℕ) (xs : Bytes) → IsNewline x → Cut (x ∷ xs)
Cut-newline x xs end =
    let t = newline-Run xs in
    record {
      l = [];
      ns = x ∷ t.ns;
      r = t.r;
      splits = ap (◌∷◌ x) t.splits;
      plain = tt;
      ends = (end, t.ends);
      some_end = omega arith;
      next_plain = t.next_plain;
    }

Cut-cons : (x : ℕ) {xs : Bytes} → IsPlain x → Cut xs → Cut (x ∷ xs)
Cut-cons x plain c = record {
  l = x ∷ c.l;
  ns = c.ns;
  r = c.r;
  splits = ap (◌∷◌ x) c.splits;
  plain = (plain, c.plain);
  ends = c.ends;
  some_end = c.some_end;
  next_plain = c.next_plain;
}

pub Cut-cases : (xs : Bytes) → (All IsPlain xs) ⊎ Cut xs
Cut-cases [] = inl tt
Cut-cases (x ∷ xs) = elim (Bool-cases (is_char x newlines)) [
  | inl end ↦ inr (Cut-newline x xs end)
  | inr plain ↦ elim (Cut-cases xs) [ inl h ↦ inl (plain, h) | inr c ↦ inr (Cut-cons x plain c) ]
]

-- whether a text ends in a newline
abbrev pub ends_newline : Bytes → Bool
ends_newline [] = false
ends_newline (c ∷ []) = is_char c newlines
ends_newline (c ∷ d ∷ cs) = ends_newline (d ∷ cs)

abbrev pub then_lines : List Bytes × Bytes → List Bytes × Bytes → List Bytes × Bytes
then_lines a b = (a.0 ++ b.0, b.1)

-- one step of `lines` for each of its branches
step_run : (c : ℕ) (cs : Bytes) → IsNewline c → starts_newline cs ≡ true → lines (c ∷ cs) ≡ lines cs
unfolding lines
step_run c cs h k = rw (h, k)

step_end :
    (c : ℕ) (cs : Bytes)
    → IsNewline c
    → starts_newline cs ≡ false
    → lines (c ∷ cs) ≡ ([] ∷ (lines cs).0, (lines cs).1)
unfolding lines
step_end c cs h k = rw (h, k)

pub step_plain : (c : ℕ) (cs : Bytes) → IsPlain c → lines (c ∷ cs) ≡ push c (lines cs)
unfolding lines
step_plain c cs h = rw h

push-then_lines :
    (c : ℕ) (a : List Bytes × Bytes) (ys : Bytes)
    → IsPlain c
    → push c (then_lines a (lines (a.1 ++ ys))) ≡ then_lines (push c a) (lines ((push c a).1 ++ ys))
push-then_lines c ([], rest) ys h = sym (step_plain c (rest ++ ys) h)
push-then_lines c (l ∷ ls, rest) ys h = refl

-- Two reads give the lines of the whole, if the seam between them is not inside a run of newlines.
pub lines-append :
    (xs ys : Bytes)
    → (ends_newline xs && starts_newline ys) ≡ false
    → lines (xs ++ ys) ≡ then_lines (lines xs) (lines ((lines xs).1 ++ ys))
lines-append [] ys h = unfold lines in refl
lines-append (c ∷ []) ys h = elim (Bool-cases (is_char c newlines)) [
  | inl end ↦ step_end c ys end (rw end at h) ∙ rw (step_end c [] end refl) (unfold lines in refl)
  | inr plain ↦ step_plain c ys plain ∙ rw (step_plain c [] plain) (unfold lines in rw plain)
]
lines-append (c ∷ d ∷ cs) ys h =
    let ih = lines-append (d ∷ cs) ys h in
    elim (Bool-cases (is_char c newlines)) [
      | inl end ↦ elim (Bool-cases (is_char d newlines)) [
        | inl run ↦ step_run c (d ∷ (cs ++ ys)) end run ∙ ih ∙ rw (step_run c (d ∷ cs) end run)
        | inr stop ↦ step_end c (d ∷ (cs ++ ys)) end stop ∙ rw (ih, step_end c (d ∷ cs) end stop)
      ]
      | inr plain ↦
          step_plain c (d ∷ (cs ++ ys)) plain
          ∙ rw (ih, step_plain c (d ∷ cs) plain) (push-then_lines c (lines (d ∷ cs)) ys plain)
    ]

-- A text that begins with a newline has an empty first line.
empty_first :
    (c : ℕ) (cs : Bytes)
    → IsNewline c
    → (t : List Bytes) × (lines (c ∷ cs) ≡ ([] ∷ t, (lines (c ∷ cs)).1))
empty_first c [] h = ([], unfold lines in rw h)
empty_first c (d ∷ cs) h = elim (Bool-cases (is_char d newlines)) [
  | inl run ↦ (let (t, e) = empty_first d cs run in (t, rw (step_run c (d ∷ cs) h run) e))
  | inr stop ↦ ((lines (d ∷ cs)).0, rw (step_end c (d ∷ cs) h stop))
]

-- A text that ends in a newline has a line, and no rest.
abbrev pub Ended : List Bytes × Bytes → Type 0
Ended a = (l : Bytes) × (ls : List Bytes) × (a ≡ (l ∷ ls, []))

pub ends_newline-Ended : (xs : Bytes) → ends_newline xs ≡ true → Ended (lines xs)
ends_newline-Ended [] h = cc
ends_newline-Ended (c ∷ []) h = ([], [], rw (step_end c [] h refl) (unfold lines in refl))
ends_newline-Ended (c ∷ d ∷ cs) h =
    let (l, ls, e) = ends_newline-Ended (d ∷ cs) h in
    elim (Bool-cases (is_char c newlines)) [
      | inl end ↦ elim (Bool-cases (is_char d newlines)) [
        | inl run ↦ (l, ls, step_run c (d ∷ cs) end run ∙ e)
        | inr stop ↦ ([], l ∷ ls, rw (step_end c (d ∷ cs) end stop, e))
      ]
      | inr plain ↦ (c ∷ l, ls, rw (step_plain c (d ∷ cs) plain, e))
    ]

seam-lines :
    (xs : Bytes) (y : ℕ) (ys : Bytes) (t : List Bytes) (r : Bytes)
    → ends_newline xs ≡ true
    → IsNewline y
    → lines (y ∷ ys) ≡ ([] ∷ t, r)
    → lines (xs ++ (y ∷ ys)) ≡ ((lines xs).0 ++ t, r)
seam-lines [] y ys t r h k e = cc
seam-lines (c ∷ []) y ys t r h k e =
    step_run c (y ∷ ys) h k ∙ e ∙ rw (step_end c [] h refl) (unfold lines in refl)
seam-lines (c ∷ d ∷ cs) y ys t r h k e =
    let ih = seam-lines (d ∷ cs) y ys t r h k e in
    let (l, ls, f) = ends_newline-Ended (d ∷ cs) h in
    elim (Bool-cases (is_char c newlines)) [
      | inl end ↦ elim (Bool-cases (is_char d newlines)) [
        | inl run ↦
            step_run c (d ∷ (cs ++ (y ∷ ys))) end run ∙ ih ∙ rw (step_run c (d ∷ cs) end run)
        | inr stop ↦
            step_end c (d ∷ (cs ++ (y ∷ ys))) end stop ∙ rw (ih, step_end c (d ∷ cs) end stop)
      ]
      | inr plain ↦
          step_plain c (d ∷ (cs ++ (y ∷ ys))) plain ∙ rw (ih, step_plain c (d ∷ cs) plain, f)
    ]

-- What two reads give when a run of newlines is cut by the seam: one more line, an empty one.
pub lines-append_seam :
    (xs : Bytes) (y : ℕ) (ys : Bytes)
    → ends_newline xs ≡ true
    → IsNewline y
    → (t : List Bytes) × ((lines ((lines xs).1 ++ (y ∷ ys))).0 ≡ [] ∷ t)
      × (lines (xs ++ (y ∷ ys)) ≡ ((lines xs).0 ++ t, (lines ((lines xs).1 ++ (y ∷ ys))).1))
lines-append_seam xs y ys h k =
    let (l, ls, e) = ends_newline-Ended xs h in
    let (t, f) = empty_first y ys k in (t, rw (e, f), rw (seam-lines xs y ys t _ h k f, e))
