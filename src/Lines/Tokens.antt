-- ===== src/Lines/Tokens.antt =====
-- apib/apib_lines.cc, LineState::nextToken and skipMatches: tokens are cut off the current line in
-- place, the delimiters behind each overwritten with NULs.
use apib.Prelude.{
  ℕ, zero, suc, ◌+◌, ◌-◌, ◌<◌, ◌≡◌, sym, ap, ◌∙◌, Bool, true, false, not, some, [], ◌∷◌, ◌++◌,
  append_assoc, Bytes, arith, length, All, set, length-append, length-replicate, replicate, ◌==◌,
  leb, drop, drop-append,
}
use apib.Lines.{LineState, is_char, next_token, scan_token, null_run, advance, c_string}
use apib.Lines.View.{
  take_while, advance-take_while, get_or-here, set-here, shift_one, length-shift, c_string-zeros,
}

-- The current line: `done` are the bytes of the allocation before the next token, `text` those of
-- the line still to be cut (with the NULs that end the line), `after` the rest of the allocation.
pub record OnLine (s : LineState) (done text after : Bytes) : Type 0 where
  pub contents : s.buf ≡ done ++ (text ++ after)
  pub at : s.tok_end ≡ length done
  pub ends : s.line_end ≡ length done + length text
  pub whole : s.line_complete ≡ true

pair_path : {a b : Bytes} {i j : ℕ} → a ≡ b → i ≡ j → ◌≡◌ {A = Bytes × ℕ} (a, i) (b, j)
pair_path p q = λ k. (p k, q k)

abbrev pub IsDelimiter : Bytes → ℕ → Type 0
IsDelimiter toks c = is_char c toks ≡ true

abbrev pub IsOther : Bytes → ℕ → Type 0
IsOther toks c = is_char c toks ≡ false

abbrev pub StartsOther : Bytes → Bytes → Type 0
StartsOther toks [] = Unit
StartsOther toks (c ∷ cs) = IsOther toks c

null_run-zeros :
    (rounds : ℕ) (toks ds r after pre buf : Bytes) (i : ℕ)
    → rounds ≡ length ds + length r
    → All (IsDelimiter toks) ds
    → StartsOther toks r
    → buf ≡ pre ++ (ds ++ (r ++ after))
    → i ≡ length pre
    → null_run toks rounds buf i ≡ (pre ++ (replicate (length ds) 0 ++ (r ++ after)), i + length ds)
unfolding null_run
null_run-zeros zero toks [] r after pre buf i m h p e l = ground arith
null_run-zeros zero toks (d ∷ ds) r after pre buf i m h p e l = absurd (omega arith)
null_run-zeros (suc k) toks [] [] after pre buf i m h p e l = absurd (omega arith)
null_run-zeros (suc k) toks [] (c ∷ r) after pre buf i m h p e l =
    rw (get_or-here buf pre (r ++ after) c i e l, p) (ground arith)
null_run-zeros (suc k) toks (d ∷ ds) r after pre buf i m h p e l =
    let regroup = λ (xs : Bytes). shift_one pre xs (r ++ after) 0 in
    rw (get_or-here buf pre (ds ++ (r ++ after)) d i e l, h.0)
      (null_run-zeros k toks ds r after (pre ++ (0 ∷ [])) (set buf i 0) (i + 1) (omega arith) h.1 p
          (set-here buf pre (ds ++ (r ++ after)) d i 0 e l ∙ regroup ds)
          (omega (arith, length-shift pre 0))
        ∙ pair_path (sym (regroup (replicate (length ds) 0))) (omega arith))

module _ (toks : Bytes) where
  abbrev pub other : ℕ → Bool
  other c = not (is_char c toks)

  take_while-token :
      (tok ds r : Bytes)
      → All (IsOther toks) tok
      → All (IsDelimiter toks) ds
      → 0 < length ds
      → take_while other (tok ++ (ds ++ r)) ≡ tok
  take_while-token [] [] r ht hd pos = absurd (omega arith)
  take_while-token [] (d ∷ ds) r ht hd pos = rw (hd.0)
  take_while-token (t ∷ tok) ds r ht hd pos =
      rw (ht.0) (ap (◌∷◌ t) (take_while-token tok ds r ht.1 hd pos))

  lengths : (tok ds r : Bytes) → length (tok ++ (ds ++ r)) ≡ length tok + (length ds + length r)
  lengths tok ds r = length-append tok (ds ++ r) ∙ ap (◌+◌ (length tok)) (length-append ds r)

  pub scan_token-text :
      (s : LineState) {b : Bytes} {i j : ℕ}
      → 0 < length toks
      → advance other (s.line_end - s.tok_end) s.buf s.tok_end ≡ i
      → null_run toks (s.line_end - i) s.buf i ≡ (b, j)
      → scan_token toks s ≡ record s { buf = b; tok_end = j }
  unfolding scan_token
  scan_token-text s h p q = ground arith

  pub next_token-text :
      (s : LineState) {t : LineState} {tok : Bytes}
      → s.line_complete ≡ true
      → leb s.line_end s.tok_end ≡ false
      → scan_token toks (record s { tok_start = s.tok_end }) ≡ t
      → c_string (drop t.tok_start t.buf) ≡ some tok
      → next_token s toks ≡ some (tok, t)
  unfolding next_token
  next_token-text s w m e f = rw (e, f, w, m)

  -- The line with its next token cut off.
  abbrev pub past_token : LineState → Bytes → Bytes → Bytes → Bytes → Bytes → LineState
  past_token s done tok ds r after = record s {
    buf = (done ++ tok) ++ (replicate (length ds) 0 ++ (r ++ after));
    tok_start = s.tok_end;
    tok_end = s.tok_end + length tok + length ds;
  }

  -- On a current line that holds a token without NULs, a run of delimiters and a rest that starts
  -- with none, nextToken gives the token, overwrites the run with NULs and passes it, and leaves
  -- the rest of the line to be cut.
  pub next_token-cut :
      (s : LineState) (done tok ds r after : Bytes)
      → 0 < length toks
      → OnLine s done (tok ++ (ds ++ r)) after
      → All (IsOther toks) tok
      → All (λ c. (c == 0) ≡ false) tok
      → All (IsDelimiter toks) ds
      → 0 < length ds
      → StartsOther toks r
      → let t = past_token s done tok ds r after in
        (next_token s toks ≡ some (tok, t))
        × OnLine t ((done ++ tok) ++ replicate (length ds) 0) r after
  next_token-cut s done tok ds r after nonempty v ht hz hd pos hr =
      let regroup : s.buf ≡ (done ++ tok) ++ (ds ++ (r ++ after)) =
        v.contents ∙ simp append_assoc in
      let start = record s { tok_start = s.tok_end } in
      let rounds : s.line_end - s.tok_end ≡ length (tok ++ (ds ++ r)) =
        omega (arith, v.at, v.ends) in
      let stop : advance other (s.line_end - s.tok_end) s.buf s.tok_end ≡ s.tok_end + length tok =
        rw (
          rounds,
          advance-take_while other (tok ++ (ds ++ r)) after done s.buf s.tok_end v.contents v.at,
          take_while-token tok ds r ht hd pos,
        ) in
      let nulled =
        null_run-zeros (s.line_end - (s.tok_end + length tok)) toks ds r after (done ++ tok) s.buf
          (s.tok_end + length tok) (omega (arith, v.at, v.ends, lengths tok ds r)) hd hr regroup
          (omega (arith, v.at, length-append done tok)) in
      let more : leb s.line_end s.tok_end ≡ false =
        ground (arith, v.at, v.ends, lengths tok ds r) in
      let t = past_token s done tok ds r after in
      let scanned : scan_token toks start ≡ t = scan_token-text start nonempty stop nulled in
      let text : c_string (drop s.tok_end t.buf) ≡ some tok =
        rw
          (
            v.at,
            append_assoc done tok (replicate (length ds) 0 ++ (r ++ after)),
            drop-append done (tok ++ (replicate (length ds) 0 ++ (r ++ after))),
          )
          (c_string-zeros tok (length ds) (r ++ after) pos hz) in
      let grown : length ((done ++ tok) ++ replicate (length ds) 0)
          ≡ length done + length tok + length ds =
        omega (
          arith,
          length-append (done ++ tok) (replicate (length ds) 0),
          length-append done tok,
          length-replicate {A = ℕ} (length ds) 0,
        ) in
      (
        next_token-text s v.whole more scanned text,
        record {
          contents = sym (append_assoc (done ++ tok) (replicate (length ds) 0) (r ++ after));
          at = omega (arith, v.at, grown);
          ends = omega (arith, v.ends, grown, lengths tok ds r);
          whole = v.whole;
        },
      )
