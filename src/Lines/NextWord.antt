-- ===== src/Lines/NextWord.antt =====
-- apib/apib_lines.cc, LineState::nextToken, call after call: the tokens of a line that does not
-- start with a delimiter are its words.
use apib.Prelude.{
  ℕ, zero, suc, ◌+◌, ◌-◌, ◌<◌, ◌≡◌, ◌⊎◌, inl, inr, refl, sym, ap, ◌∙◌, subst, true, false,
  Bool-cases, some, [], ◌∷◌, ◌++◌, append_assoc, append-nil, Bytes, arith, length, All, All-append,
  length-append, length-replicate, replicate, leb, drop, drop-append,
}
use apib.Lines.{LineState, is_char, next_token, scan_token, null_run, advance, c_string}
use apib.Lines.View.{take_while, take_while-All, advance-take_while, c_string-zeros}
use apib.Lines.Tokens.{
  OnLine, IsOther, IsDelimiter, StartsOther, next_token-cut, next_token-text, scan_token-text,
  other,
}
use apib.Lines.Stream.Drain.{NoNul, NoNul-append}
use apib.Lines.Words.{drop_while, word, behind_word}

module _ (toks : Bytes) where
  run_behind :
      (x : Bytes)
      → (ds : Bytes) × (r : Bytes) × (x ≡ ds ++ r)
        × (drop_while (λ c. is_char c toks) x ≡ r)
        × All (IsDelimiter toks) ds
        × StartsOther toks r
  run_behind [] = ([], [], refl, refl, tt, tt)
  run_behind (c ∷ x) = elim (Bool-cases (is_char c toks)) [
    | inl e ↦
        (let (ds, r, p, q, a, b) = run_behind x in (c ∷ ds, r, ap (◌∷◌ c) p, rw e q, (e, a), b))
    | inr e ↦ ([], c ∷ x, refl, rw e refl, tt, e)
  ]

  -- the text is one word, or a word, a run of delimiters, and what is behind it
  abbrev WordCases : Bytes → Type 0
  WordCases x =
      ((word toks x ≡ x) × (behind_word toks x ≡ []) × All (IsOther toks) x)
      ⊎ ((d : ℕ) × (ds : Bytes) × (r : Bytes) × (x ≡ word toks x ++ ((d ∷ ds) ++ r))
          × (behind_word toks x ≡ r)
          × All (IsOther toks) (word toks x)
          × All (IsDelimiter toks) (d ∷ ds)
          × StartsOther toks r)

  WordCases-cons : (c : ℕ) (x : Bytes) → is_char c toks ≡ false → WordCases x → WordCases (c ∷ x)
  WordCases-cons c x e (inl (w, b, a)) = inl (rw e (ap (◌∷◌ c) w), rw e b, (e, a))
  WordCases-cons c x e (inr (d, ds, r, p, b, a, h, k)) =
      inr (d, ds, r, rw e (ap (◌∷◌ c) p), rw e b, rw e (e, a), h, k)

  word_cases : (x : Bytes) → WordCases x
  word_cases [] = inl (refl, refl, tt)
  word_cases (c ∷ x) = elim (Bool-cases (is_char c toks)) [
    | inl e ↦
        (let (ds, r, p, q, a, b) = run_behind x in
          inr (c, ds, r, rw e (ap (◌∷◌ c) p), rw e (rw e q), rw e tt, (e, a), b))
    | inr e ↦ WordCases-cons c x e (word_cases x)
  ]

  All-zeros : (n : ℕ) → IsOther toks 0 → All (IsOther toks) (replicate n 0)
  All-zeros zero h = tt
  All-zeros (suc n) h = (h, All-zeros n h)

  All-kept : (x : Bytes) → All (IsOther toks) x → All (λ c. other toks c ≡ true) x
  All-kept [] h = tt
  All-kept (c ∷ x) h = (rw (h.0), All-kept x h.1)

  take_while-whole : (x : Bytes) → All (IsOther toks) x → take_while (other toks) x ≡ x
  take_while-whole x h =
      ap (take_while (other toks)) (sym (append-nil x))
      ∙ take_while-All (other toks) x [] (All-kept x h)
      ∙ append-nil x

  null_run-none : (buf : Bytes) (i : ℕ) → null_run toks (i - i) buf i ≡ (buf, i)
  unfolding null_run
  null_run-none buf i = let e : i - i ≡ 0 = omega arith in rw e refl

  -- The last token of a line ends at the NULs behind it.
  next_token-last :
      (s : LineState) (done x after : Bytes) (n : ℕ)
      → 0 < length toks
      → IsOther toks 0
      → OnLine s done (x ++ replicate n 0) after
      → All (IsOther toks) x
      → NoNul x
      → 0 < n
      → let t = record s { tok_start = s.tok_end; tok_end = s.line_end } in
        (next_token s toks ≡ some (x, t)) × OnLine t (done ++ (x ++ replicate n 0)) [] after
  next_token-last s done x after n nonempty nul v h z pos =
      let text = x ++ replicate n 0 in
      let size : length text ≡ length x + n =
        length-append x (replicate n 0) ∙ ap (λ k. length x + k) (length-replicate n 0) in
      let rounds : s.line_end - s.tok_end ≡ length text = omega (arith, v.at, v.ends) in
      let whole =
        take_while-whole text (All-append (IsOther toks) x (replicate n 0) h (All-zeros n nul)) in
      let stop : advance (other toks) (s.line_end - s.tok_end) s.buf s.tok_end ≡ s.line_end =
        rw
          (
            rounds,
            advance-take_while (other toks) text after done s.buf s.tok_end v.contents v.at,
            whole,
          )
          (omega (arith, v.at, v.ends)) in
      let t = record s { tok_start = s.tok_end; tok_end = s.line_end } in
      let scanned : scan_token toks (record s { tok_start = s.tok_end }) ≡ t =
        scan_token-text toks (record s { tok_start = s.tok_end }) nonempty stop
          (null_run-none s.buf s.line_end) in
      let named : c_string (drop s.tok_end s.buf) ≡ some x =
        rw
          (v.at, v.contents, drop-append done (text ++ after), append_assoc x (replicate n 0) after)
          (c_string-zeros x n after pos z) in
      let more : leb s.line_end s.tok_end ≡ false = ground (arith, v.at, v.ends, size) in
      (
        next_token-text toks s v.whole more scanned named,
        record {
          contents = v.contents ∙ sym (append_assoc done text after);
          at = v.ends ∙ sym (length-append done text);
          ends = omega (arith, v.ends, length-append done text);
          whole = v.whole;
        },
      )

  next_token-end :
      (s : LineState)
      → s.line_complete ≡ true
      → s.line_end ≡ s.tok_end
      → next_token s toks ≡ some ([], s)
  unfolding next_token
  next_token-end s w e = let m : leb s.line_end s.tok_end ≡ true = ground arith in rw (w, m) refl

  StartsOther-zeros :
      (r : Bytes) (n : ℕ)
      → IsOther toks 0
      → StartsOther toks r
      → StartsOther toks (r ++ replicate n 0)
  StartsOther-zeros [] zero nul h = tt
  StartsOther-zeros [] (suc n) nul h = nul
  StartsOther-zeros (c ∷ r) n nul h = h

  -- The current line still holds this text, with the NULs that end the line behind it; its tokens
  -- start with no delimiter. `after` is the allocation behind the line.
  pub record Holds (s : LineState) (x after : Bytes) : Type 0 where
    pub done : Bytes
    pub zeros : ℕ
    pub on_line : OnLine s done (x ++ replicate zeros 0) after
    pub no_nul : NoNul x
    pub starts : StartsOther toks x
    pub ended : (x ≡ []) ⊎ (0 < zeros)

  abbrev NextWord : LineState → Bytes → Bytes → Type 0
  NextWord s x after =
      (t : LineState) × (next_token s toks ≡ some (word toks x, t))
      × Holds t (behind_word toks x) after

  NextWord-last :
      (s : LineState) (done x after : Bytes) (n : ℕ)
      → 0 < length toks
      → IsOther toks 0
      → OnLine s done (x ++ replicate n 0) after
      → NoNul x
      → 0 < n
      → word toks x ≡ x
      → behind_word toks x ≡ []
      → All (IsOther toks) x
      → NextWord s x after
  NextWord-last s done x after n nonempty nul v z pos w b a =
      let (e, v') = next_token-last s done x after n nonempty nul v a z pos in
      (
        record s { tok_start = s.tok_end; tok_end = s.line_end },
        rw w e,
        rw b (record {
          done = done ++ (x ++ replicate n 0);
          zeros = 0;
          on_line = v';
          no_nul = tt;
          starts = tt;
          ended = inl refl;
        }),
      )

  NextWord-cut :
      (s : LineState) (done x after : Bytes) (n d : ℕ) (ds r : Bytes)
      → 0 < length toks
      → IsOther toks 0
      → OnLine s done (x ++ replicate n 0) after
      → NoNul x
      → 0 < n
      → x ≡ word toks x ++ ((d ∷ ds) ++ r)
      → behind_word toks x ≡ r
      → All (IsOther toks) (word toks x)
      → All (IsDelimiter toks) (d ∷ ds)
      → StartsOther toks r
      → NextWord s x after
  NextWord-cut s done x after n d ds r nonempty nul v z pos e b a h st =
      let w = word toks x in
      let zs = NoNul-append w ((d ∷ ds) ++ r) (subst NoNul e z) in
      let zr = NoNul-append (d ∷ ds) r zs.1 in
      let regroup : x ++ replicate n 0 ≡ w ++ ((d ∷ ds) ++ (r ++ replicate n 0)) =
        ap (λ y. y ++ replicate n 0) e
        ∙ append_assoc w ((d ∷ ds) ++ r) (replicate n 0)
        ∙ ap (◌++◌ w) (append_assoc (d ∷ ds) r (replicate n 0)) in
      let v' = subst (λ y. OnLine s done y after) regroup v in
      let (f, u) =
        next_token-cut toks s done w (d ∷ ds) (r ++ replicate n 0) after nonempty v' a zs.0 h
          (omega arith) (StartsOther-zeros r n nul st) in
      (
        _,
        f,
        rw b (record {
          done = (done ++ w) ++ replicate (length (d ∷ ds)) 0;
          zeros = n;
          on_line = u;
          no_nul = zr.1;
          starts = st;
          ended = inr pos;
        }),
      )

  NextWord-cases :
      (s : LineState) (done x after : Bytes) (n : ℕ)
      → 0 < length toks
      → IsOther toks 0
      → OnLine s done (x ++ replicate n 0) after
      → NoNul x
      → 0 < n
      → NextWord s x after
  NextWord-cases s done x after n nonempty nul v z pos = elim (word_cases x) [
    | inl (w, b, a) ↦ NextWord-last s done x after n nonempty nul v z pos w b a
    | inr (d, ds, r, e, b, a, h, st) ↦
        NextWord-cut s done x after n d ds r nonempty nul v z pos e b a h st
  ]

  NextWord-nothing :
      (s : LineState) (done after : Bytes) (n : ℕ)
      → 0 < length toks
      → IsOther toks 0
      → OnLine s done (replicate n 0) after
      → NextWord s [] after
  NextWord-nothing s done after zero nonempty nul v = (
    s,
    next_token-end s v.whole (omega (arith, v.at, v.ends)),
    record { done = done; zeros = 0; on_line = v; no_nul = tt; starts = tt; ended = inl refl },
  )
  NextWord-nothing s done after (suc n) nonempty nul v =
      NextWord-cases s done [] after (suc n) nonempty nul v tt (omega arith)

  -- A further call gives the next word, and the empty text behind the last.
  pub next_token-word :
      (s : LineState) (x after : Bytes)
      → 0 < length toks
      → IsOther toks 0
      → Holds s x after
      → NextWord s x after
  next_token-word s x after nonempty nul h = elim h.ended [
    | inl e ↦
        (let h' = subst (λ y. Holds s y after) e h in
          subst (λ y. NextWord s y after) (sym e)
            (NextWord-nothing s h'.done after h'.zeros nonempty nul h'.on_line))
    | inr pos ↦ NextWord-cases s h.done x after h.zeros nonempty nul h.on_line h.no_nul pos
  ]
