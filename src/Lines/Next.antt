-- ===== src/Lines/Next.antt =====
-- apib/apib_lines.cc, LineState::next and line() outside HTTP mode: each call cuts one line off the
-- bytes still to be read, together with the whole run of newlines that ends it.
use apib.Prelude.{
  ℕ, ◌+◌, ◌-◌, ◌≤◌, ◌<◌, ◌≡◌, refl, sym, ap, ◌∙◌, Bool, true, false, not, some, [], ◌∷◌, ◌++◌,
  append-nil, append_assoc, Bytes, arith, length, drop, replicate, All, length-append,
  length-replicate, drop-append, ◌==◌, leb,
}
use apib.Lines.{
  LineState, is_char, newlines, begin_line, to_newline, end_line, null_newlines, incomplete,
  complete, next, line,
}
use apib.Lines.View.{
  View, take_while, take_while-All, IsNewline, IsPlain, StartsPlain, advance-take_while,
  null_newlines-run, c_string-zeros,
}

pub begin_line-lem :
    (s : LineState)
    → s.line_start ≤ s.line_end
    → begin_line s ≡ record s { line_start = s.line_end }
unfolding begin_line
begin_line-lem s h = ground arith

abbrev keep : ℕ → Bool
keep c = not (is_char c newlines)

keep_plain : (xs : Bytes) → All IsPlain xs → All (λ x. keep x ≡ true) xs
keep_plain [] h = tt
keep_plain (x ∷ xs) h = (rw (h.0), keep_plain xs h.1)

take_while-keep-All : (xs : Bytes) → All IsPlain xs → take_while keep xs ≡ xs
take_while-keep-All [] h = refl
take_while-keep-All (x ∷ xs) h = rw (h.0) (ap (◌∷◌ x) (take_while-keep-All xs h.1))

-- The state in which `next` leaves a buffer whose unread bytes hold no newline.
abbrev pub partial : LineState → LineState
partial s = record s { line_start = s.line_end; line_end = s.buf_len; line_complete = false }

pub next-partial :
    (s : LineState) (seen xs slack : Bytes)
    → View s seen xs slack
    → All IsPlain xs
    → next s ≡ some (false, partial s)
unfolding next incomplete to_newline
next-partial s seen [] slack v h = rw (begin_line-lem s v.started) (ground (arith, v.at, v.filled))
next-partial s seen (x ∷ xs) slack v h =
    let found = advance-take_while keep (x ∷ xs) slack seen s.buf s.line_end v.contents v.at in
    let r : s.buf_len - s.line_end ≡ length (x ∷ xs) = omega (arith, v.at, v.filled) in
    rw (begin_line-lem s v.started, r, found, take_while-keep-All (x ∷ xs) h)
      (ground (arith, v.at, v.filled))

-- The state in which `next` leaves a buffer whose unread bytes are `l`, the newlines `ns`, and `r`.
abbrev pub cut : LineState → Bytes → Bytes → Bytes → Bytes → Bytes → LineState
cut s seen l ns r slack = record s {
  buf = (seen ++ l) ++ (replicate (length ns) 0 ++ (r ++ slack));
  line_start = s.line_end;
  line_end = s.line_end + length l + length ns;
  line_complete = true;
  tok_start = s.line_end;
  tok_end = s.line_end;
}

end_line-text :
    (s : LineState)
    → s.http_mode ≡ false
    → end_line s ≡ some (null_newlines (s.buf_len - s.line_end) s)
unfolding end_line
end_line-text s mode = ground arith

take_while-cut :
    (l ns r : Bytes)
    → All IsPlain l
    → All IsNewline ns
    → 0 < length ns
    → take_while keep (l ++ (ns ++ r)) ≡ l
take_while-cut l [] r hl hn pos = absurd (omega arith)
take_while-cut l (n ∷ ns) r hl hn pos =
    take_while-All keep l (n ∷ (ns ++ r)) (keep_plain l hl) ∙ rw (hn.0) (append-nil l)

module _ (s : LineState) (seen l ns r slack : Bytes) where
  -- the state at the first newline
  abbrev pub found : LineState
  found = record s { line_start = s.line_end; line_end = s.line_end + length l }

  pub to_newline-found :
      View s seen (l ++ (ns ++ r)) slack
      → All IsPlain l
      → All IsNewline ns
      → 0 < length ns
      → to_newline (record s { line_start = s.line_end }) ≡ found
  unfolding to_newline
  to_newline-found v hl hn pos =
      let rounds : s.buf_len - s.line_end ≡ length (l ++ (ns ++ r)) =
        omega (arith, v.at, v.filled) in
      rw (
        rounds,
        advance-take_while keep (l ++ (ns ++ r)) slack seen s.buf s.line_end v.contents v.at,
        take_while-cut l ns r hl hn pos,
      )

  lengths : length (l ++ (ns ++ r)) ≡ length l + (length ns + length r)
  lengths = length-append l (ns ++ r) ∙ ap (◌+◌ (length l)) (length-append ns r)

  regroup : (x : Bytes) → seen ++ ((l ++ (ns ++ r)) ++ x) ≡ (seen ++ l) ++ (ns ++ (r ++ x))
  regroup x = simp append_assoc

  end_line-found :
      View s seen (l ++ (ns ++ r)) slack
      → All IsNewline ns
      → StartsPlain r
      → s.http_mode ≡ false
      → end_line found
        ≡ some (record found {
          buf = (seen ++ l) ++ (replicate (length ns) 0 ++ (r ++ slack));
          line_end = s.line_end + length l + length ns;
        })
  end_line-found v hn hr mode =
      end_line-text found mode
      ∙ ap some (
          null_newlines-run (s.buf_len - (s.line_end + length l)) ns r slack (seen ++ l) found
            (omega (arith, v.at, v.filled, lengths)) hn hr (v.contents ∙ regroup slack)
            (omega (arith, v.at, length-append seen l)))

  pub next-cut :
      View s seen (l ++ (ns ++ r)) slack
      → All IsPlain l
      → All IsNewline ns
      → 0 < length ns
      → StartsPlain r
      → s.http_mode ≡ false
      → next s ≡ some (true, cut s seen l ns r slack)
  unfolding next complete
  next-cut v hl hn pos hr mode =
      let start : leb s.buf_len s.line_end ≡ false = ground (arith, v.at, v.filled, lengths) in
      let stop : leb s.buf_len (s.line_end + length l) ≡ false =
        ground (arith, v.at, v.filled, lengths) in
      rw (
        begin_line-lem s v.started,
        start,
        to_newline-found v hl hn pos,
        stop,
        end_line-found v hn hr mode,
      )

  line_text : (x : Bytes) → drop (length seen) ((seen ++ l) ++ x) ≡ l ++ x
  line_text x = rw (append_assoc seen l x) (drop-append seen (l ++ x))

  -- What `line` returns then, if no byte of the line is NUL.
  pub line-cut :
      View s seen (l ++ (ns ++ r)) slack
      → 0 < length ns
      → All (λ c. (c == 0) ≡ false) l
      → line (cut s seen l ns r slack) ≡ some l
  unfolding line
  line-cut v pos h =
      rw (v.at, line_text (replicate (length ns) 0 ++ (r ++ slack)))
        (c_string-zeros l (length ns) (r ++ slack) pos h)

  size : length ((seen ++ l) ++ replicate (length ns) 0) ≡ length seen + length l + length ns
  size = omega (
    arith,
    length-append (seen ++ l) (replicate (length ns) 0),
    length-append seen l,
    length-replicate {A = ℕ} (length ns) 0,
  )

  pub View-cut :
      View s seen (l ++ (ns ++ r)) slack
      → View (cut s seen l ns r slack) ((seen ++ l) ++ replicate (length ns) 0) r slack
  View-cut v = record {
    contents = sym (append_assoc (seen ++ l) (replicate (length ns) 0) (r ++ slack));
    at = omega (arith, v.at, size);
    filled = omega (arith, v.at, v.filled, lengths, size);
    started = omega (arith);
    sized =
        v.sized
        ∙ ap length v.contents
        ∙ omega (
          arith,
          length-append seen ((l ++ (ns ++ r)) ++ slack),
          length-append (l ++ (ns ++ r)) slack,
          lengths,
          length-append (seen ++ l) (replicate (length ns) 0 ++ (r ++ slack)),
          length-append seen l,
          length-append (replicate (length ns) 0) (r ++ slack),
          length-replicate {A = ℕ} (length ns) 0,
          length-append r slack,
        );
  }
