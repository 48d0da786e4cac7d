-- ===== src/Monitor/Answers.antt =====
-- apib/apib_mon.cc, socketLoop: the commands of a client are the lines that it sends, and each is
-- answered in order until one of them closes the connection.
use apib.Prelude.{
  ℕ, zero, suc, ◌+◌, ◌-◌, ◌^◌, ◌<◌, ◌≤◌, ◌≡◌, refl, sym, ap, ◌∙◌, subst, Bool, true, false, ◌&&◌,
  ◌||◌, Option, some, List, [], ◌∷◌, ◌++◌, map, Bytes, append_assoc, append-nil, length, flatten,
  ltb, leb, ◌==◌, arith, All, All-append, take, take-all, if◌then◌else◌, if-false, lt→ltb, ◌>>=◌,
}
use apib.Lines.{LineState, ReadResult, of_size, consume, read_fd, read_stream}
use apib.Lines.View.{IsPlain}
use apib.Lines.Stream.{each_line, each_line-Took, Took}
use apib.Lines.Stream.Spec.{lines, lines-plain, lines-append, ends_newline, starts_newline}
use apib.Lines.Stream.Drain.{NoNul, NoNul-append, Waiting, filled_once, of_size-Waiting}
use apib.Lines.Stream.Chunks.{taken-all, rest-IsPlain, rest-All}
use apib.Monitor.{
  Usage, LoopEnd, process_command, after_command, take_command, command_lines, consumed,
  after_commands, read_loop, socket_loop, mon_buf_len,
}

-- the answers to these commands behind those before, and whether one of them closes
abbrev pub answered :
    (List Bytes → Bool × List Bytes) → List Bytes → Bytes × Bool → Bool × List Bytes
answered more replies (reply, true) = (true, replies ++ (reply ∷ []))
answered more replies (reply, false) = more (replies ++ (reply ∷ []))

abbrev pub answers : Usage → List Bytes → List Bytes → Bool × List Bytes
answers u [] replies = (false, replies)
answers u (l ∷ ls) replies = answered (answers u ls) replies (process_command u (length replies) l)

-- the end of a loop over lines with these answers
abbrev end_with : LineState → Bool × List Bytes → LoopEnd
end_with s (true, replies) = LoopEnd.closing replies
end_with s (false, replies) = LoopEnd.through s replies

abbrev Ends : Usage → ℕ → Type 0
Ends u k =
    (t : LineState) (replies ls : List Bytes) (s' : LineState)
    → each_line k t ≡ some (ls, s')
    → command_lines u k t replies ≡ some (end_with s' (answers u ls replies))

after_command-Ends :
    (u : Usage) (k : ℕ) (t s' : LineState) (replies ls : List Bytes)
    → Ends u k
    → each_line k t ≡ some (ls, s')
    → (r : Bytes × Bool)
    → after_command (command_lines u k) t replies r
      ≡ some (end_with s' (answered (answers u ls) replies r))
after_command-Ends u k t s' replies ls ih f (reply, true) = refl
after_command-Ends u k t s' replies ls ih f (reply, false) = ih t (replies ++ (reply ∷ [])) ls s' f

take_command-Ends :
    (u : Usage) (k : ℕ) (replies ls : List Bytes) (s' : LineState)
    → Ends u k
    → (p : Bool × LineState) → Took (each_line k) p ls s'
    → take_command u (command_lines u k) replies p ≡ some (end_with s' (answers u ls replies))
take_command-Ends u k replies ls s' ih (false, t) (e, f) = rw (e, f)
take_command-Ends u k replies ls s' ih (true, t) (l, rest, e, f, g) =
    rw (e, g) (after_command-Ends u k t s' replies rest ih f (process_command u (length replies) l))

command_lines-each_line : (u : Usage) (k : ℕ) → Ends u k
unfolding command_lines
command_lines-each_line u zero s replies ls s' h = unfold each_line in cc
command_lines-each_line u (suc k) s replies ls s' h =
    let (p, n, t) = each_line-Took k s ls s' h in
    rw n (take_command-Ends u k replies ls s' (command_lines-each_line u k) p t)

-- A read of some bytes that fit is what the readers of streams get.
read_fd-read_stream :
    (s : LineState) (size : ℕ) (rest : Bytes) (c : ℕ) (cs : Bytes)
    → Waiting s size rest
    → length rest + length (c ∷ cs) ≤ size
    → read_fd s (ReadResult.received (c ∷ cs))
      ≡ ((read_stream s (c ∷ cs)).0, (read_stream s (c ∷ cs)).1)
unfolding read_fd read_stream
read_fd-read_stream s size rest c cs w h =
    let n : s.buf_len ≡ length rest = omega (arith, w.view.filled) in
    let k : take (s.buf_size - s.buf_len) (c ∷ cs) ≡ c ∷ cs =
      take-all (s.buf_size - s.buf_len) (c ∷ cs) (omega (arith, n, w.size_is, h)) in
    rw k refl

-- One filled buffer, when the whole read fits.
round :
    (s : LineState) (size : ℕ) (rest c : Bytes)
    → Waiting s size rest
    → length rest + length c ≤ size
    → NoNul (rest ++ c)
    → let t = (read_stream s c).1 in
      let spec = lines (rest ++ c) in
      (q : LineState) × (each_line (suc t.buf_len) t ≡ some (spec.0, q))
      × ((consume q).0 ≡ ltb (length spec.1) size)
      × Waiting (consume q).1 size spec.1
round s size rest c w h z =
    let e = taken-all size rest c h in
    let filled = filled_once s size rest c w (subst (λ x. NoNul (rest ++ x)) (sym e) z) in
    rw e at filled

abbrev go_on : Usage → List Bytes → Bool × List Bytes → Bool × List Bytes
go_on u ys (true, replies) = (true, replies)
go_on u ys (false, replies) = answers u ys replies

answered-append :
    (u : Usage) (xs ys replies : List Bytes) (r : Bytes × Bool)
    → ((rs : List Bytes) → answers u (xs ++ ys) rs ≡ go_on u ys (answers u xs rs))
    → answered (answers u (xs ++ ys)) replies r ≡ go_on u ys (answered (answers u xs) replies r)
answered-append u xs ys replies (reply, true) ih = refl
answered-append u xs ys replies (reply, false) ih = ih (replies ++ (reply ∷ []))

answers-append :
    (u : Usage) (xs ys replies : List Bytes)
    → answers u (xs ++ ys) replies ≡ go_on u ys (answers u xs replies)
answers-append u [] ys replies = refl
answers-append u (x ∷ xs) ys replies =
    answered-append u xs ys replies (process_command u (length replies) x) (answers-append u xs ys)

-- Every read gives some bytes that fit behind what waits, no seam cuts a run of newlines, and no
-- line fills the buffer.
abbrev pub IsServed : ℕ → Bytes → List Bytes → Type 0
IsServed size rest [] = Unit
IsServed size rest (c ∷ cs) =
    (0 < length c)
    × (length c < 2 ^ 31)
    × (length rest + length c ≤ size)
    × ((ends_newline (rest ++ c) && starts_newline (flatten cs)) ≡ false)
    × (length (lines (rest ++ c)).1 < size)
    × IsServed size (lines (rest ++ c)).1 cs

abbrev pub reads : List Bytes → List ReadResult
reads cs = map ReadResult.received cs ++ (ReadResult.received [] ∷ [])

-- the commands of one buffer, and then those of the reads that follow
after_commands-go_on :
    (u : Usage) (more : LineState → List Bytes → Option (List Bytes)) (q : LineState)
    (ys : List Bytes) (a : Bool × List Bytes)
    → (consume q).0 ≡ true
    → ((rs : List Bytes) → more (consume q).1 rs ≡ some (answers u ys rs).1)
    → after_commands more (end_with q a) ≡ some (go_on u ys a).1
after_commands-go_on u more q ys (true, rs) f ih = refl
after_commands-go_on u more q ys (false, rs) f ih =
    ap (λ b. consumed more rs (b, (consume q).1)) f ∙ ih rs

read_stream-count :
    (s : LineState) (size : ℕ) (rest c : Bytes)
    → Waiting s size rest
    → length rest + length c ≤ size
    → (read_stream s c).0 ≡ length c
unfolding read_stream
read_stream-count s size rest c w h =
    let n : s.buf_len ≡ length rest = omega (arith, w.view.filled) in
    ap length (take-all (s.buf_size - s.buf_len) c (omega (arith, n, w.size_is, h)))

read_loop-step :
    (u : Usage) (s : LineState) (size : ℕ) (rest c : Bytes) (rs : List ReadResult)
    (replies : List Bytes)
    → Waiting s size rest
    → 0 < length c
    → length c < 2 ^ 31
    → length rest + length c ≤ size
    → let t = (read_stream s c).1 in
      read_loop u (ReadResult.received c ∷ rs) s replies
      ≡ (command_lines u (suc t.buf_len) t replies >>= after_commands (read_loop u rs))
unfolding read_loop
read_loop-step u s size rest [] rs replies w pos small fits = absurd (omega arith)
read_loop-step u s size rest (x ∷ c) rs replies w pos small fits =
    let count = read_stream-count s size rest (x ∷ c) w fits in
    let n = (read_stream s (x ∷ c)).0 in
    let goes : (n == 0 || leb (2 ^ 31) n) ≡ false = ground (arith, count) in
    ap (λ p. loop_body p.0 p.1) (read_fd-read_stream s size rest x c w fits) ∙ if-false _ _ _ goes
  where
    loop_body : ℕ → LineState → Option (List Bytes)
    loop_body n t =
        if n == 0 || leb (2 ^ 31) n
        then some replies
        else (command_lines u (suc t.buf_len) t replies >>= after_commands (read_loop u rs))

read_loop-end :
    (u : Usage) (s : LineState) (rest : Bytes) (replies : List Bytes)
    → All IsPlain rest
    → read_loop u (ReadResult.received [] ∷ []) s replies
      ≡ some (answers u (lines (rest ++ [])).0 replies).1
unfolding read_loop read_fd
read_loop-end u s rest replies p =
    let e = ap lines (append-nil rest) ∙ lines-plain rest p in
    sym (ap (λ x. some (answers u x.0 replies).1) e)

read_loop-answers :
    (u : Usage) (cs : List Bytes) (s : LineState) (size : ℕ) (rest : Bytes) (replies : List Bytes)
    → Waiting s size rest
    → All IsPlain rest
    → NoNul (rest ++ flatten cs)
    → IsServed size rest cs
    → read_loop u (reads cs) s replies ≡ some (answers u (lines (rest ++ flatten cs)).0 replies).1
read_loop-answers u [] s size rest replies w p z h = read_loop-end u s rest replies p
read_loop-answers u (c ∷ cs) s size rest replies w p z (pos, small, fits, seam, room, h) =
    let regroup = append_assoc rest c (flatten cs) in
    let z' = NoNul-append (rest ++ c) (flatten cs) (subst NoNul (sym regroup) z) in
    let spec = lines (rest ++ c) in
    let (q, e, flag, w') = round s size rest c w fits z'.0 in
    let t = (read_stream s c).1 in
    let a = answers u spec.0 replies in
    let f : (consume q).0 ≡ true = flag ∙ lt→ltb (length spec.1) size room in
    let whole = ap lines (sym regroup) ∙ lines-append (rest ++ c) (flatten cs) seam in
    let all =
      ap (λ x. answers u x.0 replies) whole
      ∙ answers-append u spec.0 (lines (spec.1 ++ flatten cs)).0 replies in
    read_loop-step u s size rest c (reads cs) replies w pos small fits
    ∙ ap (λ o. o >>= after_commands (read_loop u (reads cs)))
        (command_lines-each_line u (suc t.buf_len) t replies spec.0 q e)
    ∙ after_commands-go_on u (read_loop u (reads cs)) q (lines (spec.1 ++ flatten cs)).0 a f (λ rs.
      read_loop-answers u cs (consume q).1 size spec.1 rs w' (rest-IsPlain (rest ++ c))
        (All-append (λ c. (c == 0) ≡ false) spec.1 (flatten cs)
          (rest-All (λ c. (c == 0) ≡ false) (rest ++ c) z'.0) z'.1)
        h)
    ∙ ap (λ x. some x.1) (sym all)

-- For what a client of the remote monitor sends, without NULs, in reads that fit into the buffer,
-- split no run of newlines and leave no line that fills it, and then the end of the stream: the
-- connection ends, and sends back the answers to the lines of the whole text, in order, up to the
-- first line that asks to close.
pub socket_loop-answers :
    (u : Usage) (memory : Bytes) (cs : List Bytes)
    → length memory ≡ mon_buf_len
    → NoNul (flatten cs)
    → IsServed mon_buf_len [] cs
    → socket_loop u memory (reads cs) ≡ some (answers u (lines (flatten cs)).0 []).1
unfolding socket_loop
socket_loop-answers u memory cs e z h =
    let w = subst (λ n. Waiting (of_size memory n) n []) e (of_size-Waiting memory) in
    read_loop-answers u cs (of_size memory mon_buf_len) mon_buf_len [] [] w tt z h
