-- ===== src/Lines/Frame.antt =====
-- apib/apib_lines.cc, LineState::nextToken between two calls of next: a token changes nothing but its
-- own line.
use apib.Prelude.{
  ℕ, ◌<◌, ◌≡◌, inr, refl, sym, ap, subst, ◌∙◌, Bool, true, false, not, some, [], ◌∷◌, ◌++◌,
  append_assoc, Bytes, arith, length, length-append, length-replicate, replicate, leb,
  if◌then◌else◌, Option, none, ◌>>=◌,
}
use apib.Lines.{LineState, next_token, scan_token}
use apib.Lines.Next.{cut}
use apib.Lines.View.{View}
use apib.Lines.Tokens.{StartsOther}
use apib.Lines.Stream.Drain.{NoNul}
use apib.Lines.NextWord.{Holds}

-- what nextToken leaves alone
pub record Frame (s t : LineState) : Type 0 where
  pub line_end_is : t.line_end ≡ s.line_end
  pub line_start_is : t.line_start ≡ s.line_start
  pub buf_len_is : t.buf_len ≡ s.buf_len
  pub buf_size_is : t.buf_size ≡ s.buf_size
  pub mode_is : t.http_mode ≡ s.http_mode

pub Frame-trans : (s t u : LineState) → Frame s t → Frame t u → Frame s u
Frame-trans s t u f g = record {
  line_end_is = g.line_end_is ∙ f.line_end_is;
  line_start_is = g.line_start_is ∙ f.line_start_is;
  buf_len_is = g.buf_len_is ∙ f.buf_len_is;
  buf_size_is = g.buf_size_is ∙ f.buf_size_is;
  mode_is = g.mode_is ∙ f.mode_is;
}

scan_token-Frame :
    (toks : Bytes) (s : LineState) (n : ℕ) → Frame s (scan_token toks (record s { tok_start = n }))
unfolding scan_token
scan_token-Frame [] s n = record {
  line_end_is = refl;
  line_start_is = refl;
  buf_len_is = refl;
  buf_size_is = refl;
  mode_is = refl;
}
scan_token-Frame (t ∷ ts) s n = record {
  line_end_is = refl;
  line_start_is = refl;
  buf_len_is = refl;
  buf_size_is = refl;
  mode_is = refl;
}

abbrev Answer : Type 0
Answer = Option (Bytes × LineState)

state_eq : {x w : Bytes} {s t : LineState} → ◌≡◌ {A = Answer} (some (x, s)) (some (w, t)) → s ≡ t
state_eq e = cc

-- the three ways out of nextToken
by_tests :
    (complete ended : Bool) (o : Option Bytes) (s s' t : LineState) (w : Bytes)
    → Frame s s'
    → Frame s s
    → ◌≡◌ {A = Answer}
        (if not complete
          then some ([], s)
          else if ended
          then some ([], s)
          else ◌>>=◌ {B = Bytes × LineState} o (λ x. some (x, s')))
        (some (w, t))
    → Frame s t
by_tests false ended o s s' t w f g e = subst (Frame s) (state_eq e) g
by_tests true true o s s' t w f g e = subst (Frame s) (state_eq e) g
by_tests true false none s s' t w f g e = cc
by_tests true false (some x) s s' t w f g e = subst (Frame s) (state_eq e) f

pub next_token-Frame :
    (toks : Bytes) (s t : LineState) (w : Bytes) → next_token s toks ≡ some (w, t) → Frame s t
unfolding next_token
next_token-Frame toks s t w e =
    by_tests s.line_complete (leb s.line_end s.tok_end) _ s _ t w
      (scan_token-Frame toks s s.tok_end)
      (record {
        line_end_is = refl;
        line_start_is = refl;
        buf_len_is = refl;
        buf_size_is = refl;
        mode_is = refl;
      })
      e

module _ (toks : Bytes) where
  -- A line that `next` has just cut off, if it starts with no delimiter.
  pub cut-Holds :
      (s : LineState) (seen l ns r slack : Bytes)
      → View s seen (l ++ (ns ++ r)) slack
      → NoNul l
      → StartsOther toks l
      → 0 < length ns
      → Holds toks (cut s seen l ns r slack) l (r ++ slack)
  cut-Holds s seen l ns r slack v z st pos = record {
    done = seen;
    zeros = length ns;
    on_line = record {
      contents = simp append_assoc;
      at = v.at;
      ends = omega (
        arith,
        v.at,
        length-append l (replicate (length ns) 0),
        length-replicate {A = ℕ} (length ns) 0,
      );
      whole = refl;
    };
    no_nul = z;
    starts = st;
    ended = inr pos;
  }

  -- The buffer behind a call, seen for the next line.
  pub Holds-View :
      (s t : LineState) (x y r slack seen : Bytes)
      → Holds toks s x (r ++ slack)
      → Holds toks t y (r ++ slack)
      → Frame s t
      → View s seen r slack
      → (seen' : Bytes) × View t seen' r slack
  Holds-View s t x y r slack seen h k f v =
      let hv = h.on_line in
      let kv = k.on_line in
      let text = x ++ replicate h.zeros 0 in
      let text' = y ++ replicate k.zeros 0 in
      let size = ap length hv.contents ∙ length-append h.done (text ++ (r ++ slack)) in
      let size' = ap length kv.contents ∙ length-append k.done (text' ++ (r ++ slack)) in
      (
        k.done ++ text',
        record {
          contents = kv.contents ∙ sym (append_assoc k.done text' (r ++ slack));
          at = kv.ends ∙ sym (length-append k.done text');
          filled = omega (
            arith,
            f.buf_len_is,
            f.line_end_is,
            v.filled,
            v.at,
            kv.ends,
            length-append k.done text',
          );
          started = omega (arith, f.line_start_is, f.line_end_is, v.started);
          sized = omega (
            arith,
            f.buf_size_is,
            f.line_end_is,
            v.sized,
            size,
            size',
            hv.ends,
            kv.ends,
            length-append text (r ++ slack),
            length-append text' (r ++ slack),
          );
        },
      )
