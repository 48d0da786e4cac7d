-- ===== src/Lines/View.antt =====
-- apib/apib_lines.cc: a buffer seen as the bytes that were read, those still to be read, and the
-- rest of the allocation; and what the scanning loops do to the three.
use apib.Prelude.{
  ℕ, zero, suc, ◌+◌, ◌≤◌, ◌<◌, ◌≡◌, refl, sym, ap, ◌∙◌, Bool, true, false, some, [], ◌∷◌, ◌++◌,
  append_assoc, Bytes, arith, length, get_or, set, replicate, All, length-append, get_or-append,
  set-append, if◌then◌else◌, Bool-cases, inl, inr, ◌==◌,
}
use apib.Lines.{LineState, is_char, newlines, advance, null_last, null_newlines, c_string}

pub record View (s : LineState) (seen unread slack : Bytes) : Type 0 where
  pub contents : s.buf ≡ seen ++ (unread ++ slack)
  pub at : s.line_end ≡ length seen
  pub filled : s.buf_len ≡ length seen + length unread
  pub started : s.line_start ≤ s.line_end
  pub sized : s.buf_size ≡ length s.buf

abbrev pub take_while : (ℕ → Bool) → Bytes → Bytes
take_while p [] = []
take_while p (x ∷ xs) = if p x then x ∷ take_while p xs else []

abbrev pub IsNewline : ℕ → Type 0
IsNewline c = is_char c newlines ≡ true

abbrev pub IsPlain : ℕ → Type 0
IsPlain c = is_char c newlines ≡ false

pub shift_one :
    (pre xs ys : Bytes) (x : ℕ) → pre ++ (x ∷ (xs ++ ys)) ≡ (pre ++ (x ∷ [])) ++ (xs ++ ys)
shift_one pre xs ys x = sym (append_assoc pre (x ∷ []) (xs ++ ys))

pub length-shift : (pre : Bytes) (x : ℕ) → length (pre ++ (x ∷ [])) ≡ length pre + 1
length-shift pre x = length-append pre (x ∷ [])

pub get_or-here :
    (buf pre ys : Bytes) (x i : ℕ) → buf ≡ pre ++ (x ∷ ys) → i ≡ length pre → get_or buf i 0 ≡ x
get_or-here buf pre ys x i e h = rw (e, h) (get_or-append pre (x ∷ ys) 0)

pub set-here :
    (buf pre ys : Bytes) (x i v : ℕ)
    → buf ≡ pre ++ (x ∷ ys)
    → i ≡ length pre
    → set buf i v ≡ pre ++ (v ∷ ys)
set-here buf pre ys x i v e h = rw (e, h) (set-append pre ys x v)

-- `advance` stops at the first byte that is not to be kept.
pub advance-take_while :
    (keep : ℕ → Bool) (xs ys pre buf : Bytes) (i : ℕ)
    → buf ≡ pre ++ (xs ++ ys)
    → i ≡ length pre
    → advance keep (length xs) buf i ≡ i + length (take_while keep xs)
unfolding advance
advance-take_while keep [] ys pre buf i e h = omega arith
advance-take_while keep (x ∷ xs) ys pre buf i e h =
    let more =
      advance-take_while keep xs ys (pre ++ (x ∷ [])) buf (i + 1) (e ∙ shift_one pre xs ys x)
        (omega (arith, length-shift pre x)) in
    rw (get_or-here buf pre (xs ++ ys) x i e h) (elim (Bool-cases (keep x)) [
      | inl on ↦ rw on (omega (arith, more))
      | inr off ↦ rw off (omega arith)
    ])

pub take_while-All :
    (p : ℕ → Bool) (xs ys : Bytes)
    → All (λ x. p x ≡ true) xs
    → take_while p (xs ++ ys) ≡ xs ++ take_while p ys
take_while-All p [] ys h = refl
take_while-All p (x ∷ xs) ys h = rw (h.0) (ap (◌∷◌ x) (take_while-All p xs ys h.1))

-- What the run of newlines at the head of a text is.
abbrev pub StartsPlain : Bytes → Type 0
StartsPlain [] = Unit
StartsPlain (c ∷ cs) = IsPlain c

same_state :
    (s : LineState) {b : Bytes} {e : ℕ}
    → s.buf ≡ b
    → s.line_end ≡ e
    → s ≡ record s { buf = b; line_end = e }
same_state s p q = λ i. record s { buf = p i; line_end = q i }

-- The loop over newlines leaves a NUL for each, and stops behind the last one.
pub null_newlines-run :
    (rounds : ℕ) (ns r slack pre : Bytes) (s : LineState)
    → rounds ≡ length ns + length r
    → All IsNewline ns
    → StartsPlain r
    → s.buf ≡ pre ++ (ns ++ (r ++ slack))
    → s.line_end ≡ length pre
    → null_newlines rounds s ≡ record s {
      buf = pre ++ (replicate (length ns) 0 ++ (r ++ slack));
      line_end = s.line_end + length ns;
    }
unfolding null_newlines
null_newlines-run zero [] r slack pre s m h p e l = same_state s e (omega arith)
null_newlines-run zero (n ∷ ns) r slack pre s m h p e l = absurd (omega arith)
null_newlines-run (suc k) [] [] slack pre s m h p e l = absurd (omega arith)
null_newlines-run (suc k) [] (c ∷ r) slack pre s m h p e l =
    rw (get_or-here s.buf pre (r ++ slack) c s.line_end e l, p) (same_state s e (omega arith))
null_newlines-run (suc k) (n ∷ ns) r slack pre s m h p e l =
    rw (get_or-here s.buf pre (ns ++ (r ++ slack)) n s.line_end e l, h.0)
      (null_newlines-run k ns r slack (pre ++ (0 ∷ [])) (null_last s) (omega arith) h.1 p
          (set-here s.buf pre (ns ++ (r ++ slack)) n s.line_end 0 e l ∙ shift_one_any ns)
          (omega (arith, length-shift pre 0))
        ∙ same_result)
  where
    shift_one_any :
        (xs : Bytes) → pre ++ (0 ∷ (xs ++ (r ++ slack))) ≡ (pre ++ (0 ∷ [])) ++ (xs ++ (r ++ slack))
    shift_one_any xs = shift_one pre xs (r ++ slack) 0

    same_result :
        record (null_last s) {
          buf = (pre ++ (0 ∷ [])) ++ (replicate (length ns) 0 ++ (r ++ slack));
          line_end = (null_last s).line_end + length ns;
        }
        ≡ record s {
          buf = pre ++ (0 ∷ (replicate (length ns) 0 ++ (r ++ slack)));
          line_end = s.line_end + suc (length ns);
        }
    same_result = λ i. record s {
      buf = sym (shift_one_any (replicate (length ns) 0)) i;
      line_end =
          let q : s.line_end + 1 + length ns ≡ s.line_end + suc (length ns) = omega arith in q i;
    }

-- A text with no NUL in front of one is the C string that stands there.
c_string-append :
    (l rest : Bytes) → All (λ c. (c == 0) ≡ false) l → c_string (l ++ (0 ∷ rest)) ≡ some l
unfolding c_string
c_string-append [] rest h = refl
c_string-append (c ∷ l) rest h = rw (h.0, c_string-append l rest h.1)

pub c_string-zeros :
    (l : Bytes) (n : ℕ) (rest : Bytes)
    → 0 < n
    → All (λ c. (c == 0) ≡ false) l
    → c_string (l ++ (replicate n 0 ++ rest)) ≡ some l
c_string-zeros l zero rest pos h = absurd (omega arith)
c_string-zeros l (suc n) rest pos h = c_string-append l (replicate n 0 ++ rest) h
