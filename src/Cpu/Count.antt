-- ===== src/Cpu/Count.antt =====
-- apib/apib_cpu_proc.cc, cpu_Count: however many times the file fills the buffer, the processors
-- counted are the lines of the whole file that name one.
use apib.Prelude.{
  ℕ, zero, suc, ◌+◌, ◌-◌, ◌<◌, ◌≡◌, refl, sym, ap, ◌∙◌, subst, Bool, true, false, Bool-cases, inl,
  inr, some, List, [], ◌∷◌, ◌++◌, append_assoc, append-nil, Bytes, arith, length, All, All-append,
  take, drop, take-append-drop, ltb, ◌==◌, if◌then◌else◌, if-false, equal, ◌>>=◌,
}
use apib.Lines.{LineState, of_size, read_stream, consume}
use apib.Lines.View.{IsPlain}
use apib.Lines.Stream.{each_line, each_line-Took, Took}
use apib.Lines.Stream.Spec.{lines, lines-plain, lines-append, lines-append_seam}
use apib.Lines.Stream.Drain.{NoNul, NoNul-append, Waiting, filled_once, taken, of_size-Waiting}
use apib.Lines.Stream.Chunks.{rest-IsPlain, rest-All}
use apib.Lines.Stream.Short.{
  AreShort, seam_cases, first-AreShort, length-first, AreShort-seam, read_stream-parts,
  length-taken,
}
use apib.Cpu.{is_processor, count_line, count_lines, count_loop, cpu_count, proc_buf_len}

-- the lines that name a processor
abbrev pub processors : List Bytes → ℕ
processors [] = 0
processors (l ∷ ls) = (if is_processor l then 1 else 0) + processors ls

processors-append : (xs ys : List Bytes) → processors (xs ++ ys) ≡ processors xs + processors ys
processors-append [] ys = omega arith
processors-append (x ∷ xs) ys = omega (arith, processors-append xs ys)

abbrev Counts : ℕ → Type 0
Counts k =
    (t : LineState) (count : ℕ) (ls : List Bytes) (s' : LineState)
    → each_line k t ≡ some (ls, s')
    → count_lines k t count ≡ some (count + processors ls, s')

count_line-Counts :
    (k count : ℕ) (ls : List Bytes) (s' : LineState)
    → Counts k
    → (p : Bool × LineState) → Took (each_line k) p ls s'
    → count_line (count_lines k) count p ≡ some (count + processors ls, s')
count_line-Counts k count ls s' ih (false, t) (e, f) =
    rw (e, f) (ap (λ n. some (n, t)) (let q : count ≡ count + 0 = omega arith in q))
count_line-Counts k count ls s' ih (true, t) (l, rest, e, f, g) =
    elim (Bool-cases (is_processor l)) [
      | inl y ↦
          (let q : suc count + processors rest ≡ count + (1 + processors rest) = omega arith in
            rw (e, g, y) (ih t (suc count) rest s' f ∙ ap (λ n. some (n, s')) q))
      | inr n ↦
          (let q : count + processors rest ≡ count + (0 + processors rest) = omega arith in
            rw (e, g, n) (ih t count rest s' f ∙ ap (λ n. some (n, s')) q))
    ]

count_lines-each_line : (k : ℕ) → Counts k
unfolding count_lines
count_lines-each_line zero t count ls s' h = unfold each_line in cc
count_lines-each_line (suc k) t count ls s' h =
    let (p, n, took) = each_line-Took k t ls s' h in
    rw n (count_line-Counts k count ls s' (count_lines-each_line k) p took)

processors-empty : (ls : List Bytes) → processors ([] ∷ ls) ≡ processors ls
unfolding is_processor equal
processors-empty ls = omega arith

-- A seam may add an empty line, which names no processor.
processors-seam :
    (xs ys : Bytes)
    → processors (lines (xs ++ ys)).0
      ≡ processors (lines xs).0 + processors (lines ((lines xs).1 ++ ys)).0
processors-seam xs ys = elim (seam_cases xs ys) [
  | inl apart ↦
      rw (lines-append xs ys apart) (processors-append (lines xs).0 (lines ((lines xs).1 ++ ys)).0)
  | inr (y, zs, e, ended, n) ↦
      (let (t, f, g) = lines-append_seam xs y zs ended n in
        rw (e, f, g)
          (processors-append (lines xs).0 t
            ∙ ap (λ k. processors (lines xs).0 + k) (sym (processors-empty t))))
]

count_loop-step :
    (k : ℕ) (s : LineState) (input : Bytes) (count : ℕ)
    → 0 < (read_stream s input).0
    → let t = (read_stream s input).1 in
      count_loop (suc k) s input count ≡ (
        count_lines (suc t.buf_len) t count >>= λ p.
        count_loop k (consume p.1).1 (read_stream s input).2 p.0)
unfolding count_loop
count_loop-step k s input count h =
    let goes : ((read_stream s input).0 == 0) ≡ false = ground arith in if-false _ _ _ goes

count_loop-end : (k : ℕ) (s : LineState) (count : ℕ) → count_loop (suc k) s [] count ≡ some count
unfolding count_loop read_stream
count_loop-end k s count = rw (take_nil (s.buf_size - s.buf_len)) refl
  where
    take_nil : (n : ℕ) → take {A = ℕ} n [] ≡ []
    take_nil zero = refl
    take_nil (suc n) = refl

count_loop-processors :
    (k : ℕ) (s : LineState) (size : ℕ) (rest input : Bytes) (count : ℕ)
    → Waiting s size rest
    → All IsPlain rest
    → NoNul (rest ++ input)
    → AreShort size (lines (rest ++ input))
    → length input < k
    → count_loop k s input count ≡ some (count + processors (lines (rest ++ input)).0)
count_loop-processors zero s size rest input count w p z h m = absurd (omega arith)
count_loop-processors (suc k) s size rest [] count w p z h m =
    let e = ap (λ a. processors a.0) (ap lines (append-nil rest) ∙ lines-plain rest p) in
    count_loop-end k s count ∙ ap some (omega (arith, e))
count_loop-processors (suc k) s size rest (i ∷ is) count w p z h m =
    let input = i ∷ is in
    let room : length rest < size =
      omega (arith, length-first rest input p, first-AreShort size (lines (rest ++ input)) h) in
    let c = taken size rest input in
    let left = drop (size - length rest) input in
    let regroup : (rest ++ c) ++ left ≡ rest ++ input =
      append_assoc rest c left ∙ ap (◌++◌ rest) (take-append-drop (size - length rest) input) in
    let z' = NoNul-append (rest ++ c) left (subst NoNul (sym regroup) z) in
    let (q, e, _, w') = filled_once s size rest input w z'.0 in
    let (rc, behind) = read_stream-parts s size rest input w in
    let (some_byte, fewer) = length-taken size rest i is room in
    let spec = lines (rest ++ c) in
    let t = (read_stream s input).1 in
    let (_, h') =
      AreShort-seam size (rest ++ c) left (subst (λ x. AreShort size (lines x)) (sym regroup) h) in
    let ih =
      count_loop-processors k (consume q).1 size spec.1 left (count + processors spec.0) w'
        (rest-IsPlain (rest ++ c))
        (All-append (λ c. (c == 0) ≡ false) spec.1 left
          (rest-All (λ c. (c == 0) ≡ false) (rest ++ c) z'.0) z'.1)
        h' (omega (arith, fewer)) in
    let total = ap (λ x. processors (lines x).0) (sym regroup) ∙ processors-seam (rest ++ c) left in
    count_loop-step k s input count (omega (arith, rc, some_byte))
    ∙ rw (count_lines-each_line (suc t.buf_len) t count spec.0 q e, behind)
        (ih ∙ ap some (omega (arith, total)))

-- For a file without NULs whose lines are each shorter than the buffer, whatever its length:
-- cpu_Count ends and gives the number of its lines that begin with "processor" and a blank or a
-- tab, and 1 if there is none.
pub cpu_count-processors :
    (memory content : Bytes)
    → length memory ≡ proc_buf_len
    → NoNul content
    → AreShort proc_buf_len (lines content)
    → let found = processors (lines content).0 in
      cpu_count memory (some content) ≡ some (if ltb found 1 then 1 else found)
unfolding cpu_count
cpu_count-processors memory content m z h =
    let w = subst (λ n. Waiting (of_size memory n) n []) m (of_size-Waiting memory) in
    let e =
      count_loop-processors (suc (length content)) (of_size memory proc_buf_len) proc_buf_len []
        content 0 w tt z h (omega arith) in
    let n : 0 + processors (lines content).0 ≡ processors (lines content).0 = omega arith in
    rw (e, n) refl
