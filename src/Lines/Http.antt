-- ===== src/Lines/Http.antt =====
-- apib/apib_lines.cc, LineState::next in HTTP mode, where one CRLF, one LF or one CR ends a line.
-- Behind a CR the code reads one byte with no test that the buffer holds it.
use apib.Prelude.{
  ℕ, suc, ◌+◌, ◌≡◌, ◌↔◌, refl, sym, ◌∙◌, Bool, true, false, Option, none, some, [], ◌∷◌, ◌++◌,
  append_assoc, Bytes, arith, length, All, get_elem?, set, length-append, if◌then◌else◌, inl, inr,
  ◌==◌, ◌>>=◌, leb, Bool-cases,
}
use apib.Lines.{LineState, is_char, next, end_line, end_http_line, complete}
use apib.Lines.View.{View, IsPlain, get_or-here, set-here, length-shift}
use apib.Lines.Next.{begin_line-lem, found, to_newline-found}

pub get_elem?-second :
    (pre x : Bytes) (c d : ℕ) → get_elem? (pre ++ (c ∷ d ∷ x)) (length pre + 1) ≡ some d
get_elem?-second [] x c d = refl
get_elem?-second (p ∷ pre) x c d =
    let e : length (p ∷ pre) + 1 ≡ suc (length pre + 1) = omega arith in
    rw e (get_elem?-second pre x c d)

get_elem?-last : (pre : Bytes) (c : ℕ) → get_elem? (pre ++ (c ∷ [])) (length pre + 1) ≡ none
get_elem?-last [] c = refl
get_elem?-last (p ∷ pre) c =
    let e : length (p ∷ pre) + 1 ≡ suc (length pre + 1) = omega arith in rw e (get_elem?-last pre c)

-- The line up to a CR at `pre`, where `x` is what follows in the allocation, read or not.
abbrev pub after_cr : LineState → Bytes → Bytes → Option LineState
after_cr s pre [] = none
after_cr s pre (c ∷ x) =
    if c == b'\n'
    then some (record s { buf = pre ++ (0 ∷ 0 ∷ x); line_end = s.line_end + 1 + 1 })
    else some (record s { buf = pre ++ (0 ∷ c ∷ x); line_end = s.line_end + 1 })

end_http_line-cr :
    (s : LineState) (pre x : Bytes)
    → s.buf ≡ pre ++ (b'\r' ∷ x)
    → s.line_end ≡ length pre
    → end_http_line s ≡ after_cr s pre x
unfolding end_http_line
end_http_line-cr s pre [] e h =
    let first = get_or-here s.buf pre [] b'\r' s.line_end e h in
    let nulled = set-here s.buf pre [] b'\r' s.line_end 0 e h in
    rw (first, nulled, h, get_elem?-last pre 0)
end_http_line-cr s pre (c ∷ x) e h =
    let first = get_or-here s.buf pre (c ∷ x) b'\r' s.line_end e h in
    let nulled = set-here s.buf pre (c ∷ x) b'\r' s.line_end 0 e h in
    let second : get_elem? (pre ++ (0 ∷ c ∷ x)) (s.line_end + 1) ≡ some c =
      rw h (get_elem?-second pre x 0 c) in
    let both : set (pre ++ (0 ∷ c ∷ x)) (s.line_end + 1) 0 ≡ pre ++ (0 ∷ 0 ∷ x) =
      set-here (pre ++ (0 ∷ c ∷ x)) (pre ++ (0 ∷ [])) x c (s.line_end + 1) 0
        (sym (append_assoc pre (0 ∷ []) (c ∷ x))) (omega (arith, length-shift pre 0))
      ∙ append_assoc pre (0 ∷ []) (0 ∷ x) in
    rw (first, nulled, second)
      (elim (Bool-cases (c == b'\n')) [ inl lf ↦ rw (lf, both) | inr other ↦ rw other ])

end_line-http : (s : LineState) → s.http_mode ≡ true → end_line s ≡ end_http_line s
unfolding end_line
end_line-http s m = ground arith

after_cr-ne-none :
    (s : LineState) (pre x : Bytes) → (after_cr s pre x >>= λ t. some (complete t)) ≡ none → x ≡ []
after_cr-ne-none s pre [] h = refl
after_cr-ne-none s pre (c ∷ x) h = absurd (some_case (c == b'\n') _ _ h)
  where
    some_case :
        (b : Bool) (t u : LineState)
        → ((if b then some t else some u) >>= λ t. some (complete t)) ≡ none
        → ⊥
    some_case true t u h = cc
    some_case false t u h = cc

append-eq-nil : (r x : Bytes) → r ++ x ≡ [] → (r ≡ []) × (x ≡ [])
append-eq-nil [] x h = (refl, h)
append-eq-nil (c ∷ r) x h = cc

module _ (s : LineState) (seen l r slack : Bytes) where
  -- The bytes behind the CR are those still unread, and then whatever the allocation holds.
  pub next-cr :
      View s seen (l ++ (b'\r' ∷ r)) slack
      → All IsPlain l
      → s.http_mode ≡ true
      → next s ≡ (
          after_cr (found s seen l (b'\r' ∷ []) r slack) (seen ++ l) (r ++ slack) >>= λ t.
          some (complete t))
  unfolding next is_char
  next-cr v hl m =
      let n : length (l ++ (b'\r' ∷ r)) ≡ length l + suc (length r) = length-append l (b'\r' ∷ r) in
      let start : leb s.buf_len s.line_end ≡ false = ground (arith, v.at, v.filled, n) in
      let stop : leb s.buf_len (s.line_end + length l) ≡ false =
        ground (arith, v.at, v.filled, n) in
      let at_cr = found s seen l (b'\r' ∷ []) r slack in
      let text : s.buf ≡ (seen ++ l) ++ (b'\r' ∷ (r ++ slack)) = v.contents ∙ simp append_assoc in
      rw (
        begin_line-lem s v.started,
        start,
        to_newline-found s seen l (b'\r' ∷ []) r slack v hl (refl, tt) (omega arith),
        stop,
        end_line-http at_cr m,
        end_http_line-cr at_cr (seen ++ l) (r ++ slack) text
            (omega (arith, v.at, length-append seen l)),
      )

  -- In HTTP mode, for unread bytes that hold a CR and only other bytes than newlines before it,
  -- next reads outside the allocation exactly when the CR is the last byte of it.
  pub next-cr_fault :
      View s seen (l ++ (b'\r' ∷ r)) slack
      → All IsPlain l
      → s.http_mode ≡ true
      → (next s ≡ none) ↔ ((r ≡ []) × (slack ≡ []))
  next-cr_fault v hl m = (
    λ h. append-eq-nil r slack (
        after_cr-ne-none (found s seen l (b'\r' ∷ []) r slack) (seen ++ l) (r ++ slack)
          (sym (next-cr v hl m) ∙ h)),
    λ h. next-cr v hl m ∙ rw (h.0, h.1),
  )

-- In HTTP mode, when a CR is the last byte read and the first newline, and a stale LF stands
-- behind it, next gives a line and moves its end one past the data.
next-cr_overrun :
    (s : LineState) (seen l slack : Bytes)
    → View s seen (l ++ (b'\r' ∷ [])) (b'\n' ∷ slack)
    → All IsPlain l
    → s.http_mode ≡ true
    → (t : LineState) × (next s ≡ some (true, t)) × (t.line_end ≡ t.buf_len + 1)
unfolding complete
next-cr_overrun s seen l slack v hl m = (
  _,
  next-cr s seen l [] (b'\n' ∷ slack) v hl m,
  omega (arith, v.at, v.filled, length-append l (b'\r' ∷ [])),
)
