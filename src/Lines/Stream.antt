-- ===== src/Lines/Stream.antt =====
-- apib/apib_lines.cc under the reading loop that its clients share (apib_cpu_proc.cc, apib_mon.cc,
-- apib_url.cc): fill the buffer, take lines while `next` finds one, `consume` what is left.
pub mod Spec
pub mod Drain
pub mod Chunks
pub mod Short
use apib.Prelude.{
  ℕ, zero, suc, ◌+◌, Bool, true, false, Option, none, some, List, [], ◌∷◌, Bytes, ◌>>=◌,
  >>=-eq-some, ◌≡◌, ◌∙◌,
}
use apib.Lines.{LineState, next, line, read_stream, consume}

-- One round of `while (line.next()) { const auto l = line.line(); ... }` on what `next` gave, `more`
-- the rounds behind it.
abbrev pub take_line :
    (LineState → Option (List Bytes × LineState))
    → Bool × LineState
    → Option (List Bytes × LineState)
take_line more (true, s) = line s >>= λ l. more s >>= λ q. some (l ∷ q.0, q.1)
take_line more (false, s) = some ([], s)

-- The lines that the body of that loop sees, and the buffer behind the loop. Each round takes at
-- least one byte, so that `rounds` may be the number of unread bytes and one more. `none`: a read
-- outside the allocation, or no rounds left.
unfoldable pub each_line : ℕ → LineState → Option (List Bytes × LineState)
each_line zero s = none
each_line (suc rounds) s = next s >>= take_line (each_line rounds)

-- One round of the loop around it, for the bytes `input` that the stream holds.
unfoldable pub receive : LineState → Bytes → Option (List Bytes × Bool × LineState)
receive s input =
    let (_, s₁, _) = read_stream s input in
    each_line (suc s₁.buf_len) s₁ >>= λ q. let (more, s₂) = consume q.1 in some (q.0, more, s₂)

abbrev pub Took :
    (LineState → Option (List Bytes × LineState))
    → Bool × LineState
    → List Bytes
    → LineState
    → Type 0
Took more (false, t) ls s' = (ls ≡ []) × (s' ≡ t)
Took more (true, t) ls s' =
    (l : Bytes) × (rest : List Bytes) × (line t ≡ some l)
    × (more t ≡ some (rest, s'))
    × (ls ≡ l ∷ rest)

take_line-Took :
    (more : LineState → Option (List Bytes × LineState)) (p : Bool × LineState) (ls : List Bytes)
    (s' : LineState)
    → take_line more p ≡ some (ls, s')
    → Took more p ls s'
take_line-Took more (false, t) ls s' h = (cc, cc)
take_line-Took more (true, t) ls s' h =
    let (l, e, h₁) = >>=-eq-some (line t) _ h in
    let (q, f, h₂) = >>=-eq-some (more t) _ h₁ in (l, q.0, e, f ∙ cc, cc)

-- what a loop that ended has done in its first round
pub each_line-Took :
    (rounds : ℕ) (s : LineState) (ls : List Bytes) (s' : LineState)
    → each_line (suc rounds) s ≡ some (ls, s')
    → (p : Bool × LineState) × (next s ≡ some p) × Took (each_line rounds) p ls s'
unfolding each_line
each_line-Took rounds s ls s' h =
    let (p, n, k) = >>=-eq-some (next s) (take_line (each_line rounds)) h in
    (p, n, take_line-Took (each_line rounds) p ls s' k)
