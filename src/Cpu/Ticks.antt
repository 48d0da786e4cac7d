-- ===== src/Cpu/Ticks.antt =====
-- apib/apib_cpu_proc.cc, getTicks and cpu_GetInterval: the ticks are the sums of the columns of the
-- first line "cpu ", idle and not, and the share of an interval stays between 0 and 1.
use apib.Prelude.{
  ℕ, zero, suc, ◌<◌, ◌≤◌, ◌≡◌, refl, sym, ap, ◌∙◌, subst, Bool, true, false, not, Bool-cases, inl,
  inr, Option, some, none, List, [], ◌∷◌, ◌++◌, Bytes, codes, equal, arith, length, length-append,
  take, drop, take-append-drop, if◌then◌else◌, if-true, if-false,
}
use apib.Prelude.Int.{ℤ, ◌+ℤ◌}
use apib.Lines.{LineState, of_size, next, line, read_stream, is_char}
use apib.Lines.View.{View}
use apib.Lines.Next.{next-partial, next-cut, line-cut, View-cut, cut}
use apib.Lines.Stream.Spec.{lines, lines-plain, lines-cut, Cut-cases}
use apib.Lines.Stream.Drain.{
  NoNul, NoNul-append, Waiting, of_size-Waiting, read_stream-View, read_stream-mode,
}
use apib.Lines.Tokens.{StartsOther}
use apib.Lines.Words.{
  word, behind_word, words, words_with, word_list, words-word_list, length-behind,
}
use apib.Lines.NextWord.{Holds, next_token-word}
use apib.Lines.Frame.{cut-Holds}
use apib.Cpu.{
  CpuUsage, is_idle, blanks, parsed, column, columns, ticks_line, ticks_loop, with_ticks, get_ticks,
  proc_buf_len,
}

module _ (simple_atoi : Bytes → Option ℤ) where
  abbrev pub value_with : List ℤ → Option ℤ → List ℤ
  value_with vs none = vs
  value_with vs (some v) = v ∷ vs

  -- the words that are numbers
  abbrev pub values : List Bytes → List ℤ
  values [] = []
  values (w ∷ ws) = value_with (values ws) (simple_atoi w)

  -- those in the columns of this kind, counted from `i`
  abbrev pub of_kind : (ℕ → Bool) → ℕ → List ℤ → List ℤ
  of_kind p i [] = []
  of_kind p i (v ∷ vs) = if p i then v ∷ of_kind p (suc i) vs else of_kind p (suc i) vs

  abbrev pub total : ℤ → List ℤ → ℤ
  total t [] = t
  total t (v ∷ vs) = total (t +ℤ v) vs

  abbrev pub is_busy : ℕ → Bool
  is_busy i = not (is_idle i)

  -- the sums of the idle columns and of the others
  abbrev pub sums : ℕ → ℤ → ℤ → List ℤ → ℤ × ℤ
  sums i idle non_idle vs =
      (total idle (of_kind is_idle i vs), total non_idle (of_kind is_busy i vs))

  -- the ticks that a text of these lines gives
  abbrev pub ticks_of : List Bytes → Option (ℤ × ℤ)
  ticks_of [] = none
  ticks_of (l ∷ ls) =
      if equal (codes "cpu ") (take 4 l)
      then some (sums 0 (ℤ.pos 0) (ℤ.pos 0) (values (word_list blanks (behind_word blanks l))))
      else ticks_of ls

  abbrev Sums : ℕ → Type 0
  Sums k =
      (s : LineState) (x after : Bytes) (i : ℕ) (a b : ℤ)
      → Holds blanks s x after
      → length x < k
      → columns simple_atoi k s i a b ≡ some (sums i a b (values (words blanks k x)))

  counted :
      (i : ℕ) (a b v : ℤ) (vs : List ℤ)
      → sums (suc i) (if is_idle i then a +ℤ v else a) (if is_idle i then b else b +ℤ v) vs
        ≡ sums i a b (v ∷ vs)
  counted i a b v vs = elim (Bool-cases (is_idle i)) [ inl e ↦ rw e refl | inr e ↦ rw e refl ]

  parsed-sums :
      (k : ℕ) (t : LineState) (y after : Bytes) (i : ℕ) (a b : ℤ)
      → Sums k
      → Holds blanks t y after
      → length y < k
      → (o : Option ℤ)
      → parsed simple_atoi (columns simple_atoi k) t i a b o
        ≡ some (sums i a b (value_with (values (words blanks k y)) o))
  parsed-sums k t y after i a b ih h fewer none = ih t y after i a b h fewer
  parsed-sums k t y after i a b ih h fewer (some v) =
      ih t y after (suc i) (if is_idle i then a +ℤ v else a) (if is_idle i then b else b +ℤ v) h
        fewer
      ∙ ap some (counted i a b v (values (words blanks k y)))

  column-sums :
      (k : ℕ) (t : LineState) (w y after : Bytes) (i : ℕ) (a b : ℤ)
      → Sums k
      → Holds blanks t y after
      → (0 < length w → length y < k)
      → column simple_atoi (columns simple_atoi k) i a b (w, t)
        ≡ some (sums i a b (values (words_with blanks (words blanks k y) w)))
  column-sums k t [] y after i a b ih h fewer = refl
  column-sums k t (c ∷ w) y after i a b ih h fewer =
      parsed-sums k t y after i a b ih h (fewer (omega arith)) (simple_atoi (c ∷ w))

  columns-Sums : (k : ℕ) → Sums k
  unfolding columns words is_char
  columns-Sums zero s x after i a b h n = absurd (omega arith)
  columns-Sums (suc k) s x after i a b h n =
      let (t, e, h') = next_token-word blanks s x after (omega arith) refl h in
      let m = length-behind blanks x in
      rw e (
        column-sums k t (word blanks x) (behind_word blanks x) after i a b (columns-Sums k) h'
          λ pos. omega (arith, m))

  starts_cpu : (l : Bytes) → equal (codes "cpu ") (take 4 l) ≡ true → StartsOther blanks l
  unfolding equal is_char
  starts_cpu [] h = cc
  starts_cpu (c ∷ l) h = ground arith

  -- a line of processor ticks
  ticks_line-cpu :
      (more : LineState → Option (Option (ℤ × ℤ))) (s : LineState) (l after : Bytes)
      → line s ≡ some l
      → Holds blanks s l after
      → length l ≤ s.buf_len
      → equal (codes "cpu ") (take 4 l) ≡ true
      → ticks_line simple_atoi more (true, s)
        ≡ some
            (some (sums 0 (ℤ.pos 0) (ℤ.pos 0) (values (word_list blanks (behind_word blanks l)))))
  unfolding is_char
  ticks_line-cpu more s l after e h n cpu =
      let (t, f, h') = next_token-word blanks s l after (omega arith) refl h in
      let m = length-behind blanks l in
      let y = behind_word blanks l in
      let c = columns-Sums (suc s.buf_len) t y after 0 (ℤ.pos 0) (ℤ.pos 0) h' (omega (arith, m)) in
      rw (e, cpu, f, c, words-word_list blanks (suc s.buf_len) y (omega (arith, m))) refl

  ticks_line-other :
      (more : LineState → Option (Option (ℤ × ℤ))) (s : LineState) (l : Bytes)
      → line s ≡ some l
      → equal (codes "cpu ") (take 4 l) ≡ false
      → ticks_line simple_atoi more (true, s) ≡ more s
  ticks_line-other more s l e other = rw (e, other) refl

  ticks_loop-step :
      (k : ℕ) (s : LineState) {p : Bool × LineState}
      → next s ≡ some p
      → ticks_loop simple_atoi (suc k) s ≡ ticks_line simple_atoi (ticks_loop simple_atoi k) p
  unfolding ticks_loop
  ticks_loop-step k s e = rw e refl

  ticks_of-cpu :
      (l : Bytes) (ls : List Bytes)
      → equal (codes "cpu ") (take 4 l) ≡ true
      → ticks_of (l ∷ ls)
        ≡ some (sums 0 (ℤ.pos 0) (ℤ.pos 0) (values (word_list blanks (behind_word blanks l))))
  ticks_of-cpu l ls h = if-true _ _ _ h

  ticks_loop-ticks_of :
      (k : ℕ) (s : LineState) (seen xs slack : Bytes)
      → View s seen xs slack
      → NoNul xs
      → s.http_mode ≡ false
      → length xs < k
      → ticks_loop simple_atoi k s ≡ some (ticks_of (lines xs).0)
  ticks_loop-ticks_of zero s seen xs slack v z m h = absurd (omega arith)
  ticks_loop-ticks_of (suc k) s seen xs slack v z m h = elim (Cut-cases xs) [
    | inl plain ↦
        ticks_loop-step k s (next-partial s seen xs slack v plain)
        ∙ ap (λ a. some (ticks_of a.0)) (sym (lines-plain xs plain))
    | inr c ↦
        (let v' = subst (λ x. View s seen x slack) c.splits v in
          let z' = NoNul-append c.l (c.ns ++ c.r) (subst NoNul c.splits z) in
          let zr = (NoNul-append c.ns c.r z'.1).1 in
          let size = ap length c.splits ∙ length-append c.l (c.ns ++ c.r) in
          let size' = length-append c.ns c.r in
          let fewer : length c.r < k = omega (arith, size, size', c.some_end) in
          let t = cut s seen c.l c.ns c.r slack in
          let within : length c.l ≤ t.buf_len = omega (arith, v.filled, size) in
          let here = line-cut s seen c.l c.ns c.r slack v' c.some_end z'.0 in
          let n = next-cut s seen c.l c.ns c.r slack v' c.plain c.ends c.some_end c.next_plain m in
          let whole =
            ap lines c.splits ∙ lines-cut c.l c.ns c.r c.plain c.ends c.some_end c.next_plain in
          ticks_loop-step k s n ∙ elim (Bool-cases (equal (codes "cpu ") (take 4 c.l))) [
            | inl cpu ↦
                ticks_line-cpu (ticks_loop simple_atoi k) t c.l (c.r ++ slack) here
                  (cut-Holds blanks s seen c.l c.ns c.r slack v' z'.0 (starts_cpu c.l cpu)
                    c.some_end)
                  within cpu
                ∙ ap some (sym (ap (λ a. ticks_of a.0) whole ∙ ticks_of-cpu c.l (lines c.r).0 cpu))
            | inr other ↦
                ticks_line-other (ticks_loop simple_atoi k) t c.l here other
                ∙ ticks_loop-ticks_of k t _ c.r slack (View-cut s seen c.l c.ns c.r slack v') zr m
                    fewer
                ∙ ap some (sym (ap (λ a. ticks_of a.0) whole ∙ if-false _ _ _ other))
          ])
  ]

  -- For a file without NULs: getTicks ends and gives the sums of the idle and of the other columns
  -- that the lines of the first 8192 bytes describe, those of the words of the first line that
  -- begins with "cpu ", and leaves the usage as it was if there is no such line.
  pub get_ticks-ticks_of :
      (memory content : Bytes) (cpu : CpuUsage)
      → length memory ≡ proc_buf_len
      → NoNul content
      → get_ticks simple_atoi memory (some content) cpu
        ≡ some (with_ticks simple_atoi cpu (ticks_of (lines (take proc_buf_len content)).0))
  unfolding get_ticks
  get_ticks-ticks_of memory content cpu m z =
      let s = of_size memory proc_buf_len in
      let w = subst (λ n. Waiting (of_size memory n) n []) m (of_size-Waiting memory) in
      let (slack, v) = read_stream-View s proc_buf_len [] content w in
      let t = (read_stream s content).1 in
      let first = take proc_buf_len content in
      let z' =
        NoNul-append first (drop proc_buf_len content)
          (subst NoNul (sym (take-append-drop proc_buf_len content)) z) in
      let e =
        ticks_loop-ticks_of (suc t.buf_len) t [] first slack v z'.0
          (read_stream-mode s content ∙ w.mode) (omega (arith, v.filled)) in
      rw e refl
