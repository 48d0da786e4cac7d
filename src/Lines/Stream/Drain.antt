-- ===== src/Lines/Stream/Drain.antt =====
-- The reading loop of the clients of apib/apib_lines.h: what one filled buffer gives.
use apib.Prelude.{
  ℕ, zero, suc, ◌+◌, ◌-◌, ◌<◌, ◌≤◌, ◌≡◌, refl, sym, ap, ◌∙◌, true, false, Option, some, List, [],
  ◌∷◌, ◌++◌, append_assoc, Bytes, arith, length, All, take, drop, ltb, length-append, drop-append,
  take-append, length-drop, length-take, inl, inr, ◌==◌, subst,
}
use apib.Lines.{LineState, next, line, of_size, read_stream, consume, remaining}
use apib.Lines.View.{View, IsPlain}
use apib.Lines.Next.{next-partial, next-cut, line-cut, View-cut, partial, cut}
use apib.Lines.Stream.{each_line, receive}
use apib.Lines.Stream.Spec.{lines, lines-plain, lines-cut, Cut-cases}

abbrev pub NoNul : Bytes → Type 0
NoNul = All (λ c. (c == 0) ≡ false)

-- A buffer of `size` bytes behind a `next` that found no line: `rest` waits for more.
pub record Pending (s : LineState) (size : ℕ) (rest : Bytes) : Type 0 where
  pub before : Bytes
  pub slack : Bytes
  pub contents : s.buf ≡ before ++ (rest ++ slack)
  pub starts : s.line_start ≡ length before
  pub filled : s.buf_len ≡ length before + length rest
  pub open_line : s.line_complete ≡ false
  pub sized : s.buf_size ≡ length s.buf
  pub size_is : s.buf_size ≡ size
  pub mode : s.http_mode ≡ false

-- What the loop over `next` gives: the lines seen, and the buffer that it leaves.
abbrev pub Drained : Option (List Bytes × LineState) → ℕ → List Bytes × Bytes → Type 0
Drained o size spec = (s : LineState) × (o ≡ some (spec.0, s)) × Pending s size spec.1

pub NoNul-append : (xs ys : Bytes) → NoNul (xs ++ ys) → NoNul xs × NoNul ys
NoNul-append [] ys h = (tt, h)
NoNul-append (x ∷ xs) ys h = let r = NoNul-append xs ys h.1 in ((h.0, r.0), r.1)

each_line-plain :
    (rounds : ℕ) (s : LineState) (seen xs slack : Bytes)
    → View s seen xs slack
    → All IsPlain xs
    → s.http_mode ≡ false
    → Drained (each_line (suc rounds) s) s.buf_size ([], xs)
unfolding each_line
each_line-plain rounds s seen xs slack v h m = (
  partial s,
  rw (next-partial s seen xs slack v h),
  record {
    before = seen;
    slack = slack;
    contents = v.contents;
    starts = v.at;
    filled = v.filled;
    open_line = refl;
    sized = v.sized;
    size_is = refl;
    mode = m;
  },
)

each_line-cut :
    (rounds : ℕ) (s : LineState) (seen l ns r slack : Bytes) (spec : List Bytes × Bytes)
    → next s ≡ some (true, cut s seen l ns r slack)
    → line (cut s seen l ns r slack) ≡ some l
    → Drained (each_line rounds (cut s seen l ns r slack)) s.buf_size spec
    → Drained (each_line (suc rounds) s) s.buf_size (l ∷ spec.0, spec.1)
unfolding each_line
each_line-cut rounds s seen l ns r slack spec n k (q, e, p) = (q, rw (n, k, e), p)

-- The loop gives the lines of what was unread, and keeps the unterminated rest.
pub each_line-lines :
    (rounds : ℕ) (s : LineState) (seen xs slack : Bytes)
    → View s seen xs slack
    → NoNul xs
    → s.http_mode ≡ false
    → length xs < rounds
    → Drained (each_line rounds s) s.buf_size (lines xs)
each_line-lines zero s seen xs slack v z m h = absurd (omega arith)
each_line-lines (suc rounds) s seen xs slack v z m h = elim (Cut-cases xs) [
  | inl plain ↦
      subst (Drained (each_line (suc rounds) s) s.buf_size) (sym (lines-plain xs plain))
        (each_line-plain rounds s seen xs slack v plain m)
  | inr c ↦
      (let v' = subst (λ x. View s seen x slack) c.splits v in
        let z' = subst NoNul c.splits z in
        let zr = (NoNul-append c.ns c.r (NoNul-append c.l (c.ns ++ c.r) z').1).1 in
        let fewer : length c.r < rounds = omega (
          arith,
          ap length c.splits,
          length-append c.l (c.ns ++ c.r),
          length-append c.ns c.r,
          c.some_end,
        ) in
        subst (Drained (each_line (suc rounds) s) s.buf_size)
          (sym (ap lines c.splits ∙ lines-cut c.l c.ns c.r c.plain c.ends c.some_end c.next_plain))
          (each_line-cut rounds s seen c.l c.ns c.r slack (lines c.r)
            (next-cut s seen c.l c.ns c.r slack v' c.plain c.ends c.some_end c.next_plain m)
            (line-cut s seen c.l c.ns c.r slack v' c.some_end (NoNul-append c.l (c.ns ++ c.r) z').0)
            (each_line-lines rounds (cut s seen c.l c.ns c.r slack) _ c.r slack
              (View-cut s seen c.l c.ns c.r slack v') zr m fewer)))
]

-- A buffer of `size` bytes ready for a read: `rest` stands at its start, unread.
pub record Waiting (s : LineState) (size : ℕ) (rest : Bytes) : Type 0 where
  pub slack : Bytes
  pub view : View s [] rest slack
  pub open_line : s.line_complete ≡ false
  pub size_is : s.buf_size ≡ size
  pub mode : s.http_mode ≡ false

-- a new buffer
pub of_size-Waiting : (memory : Bytes) → Waiting (of_size memory (length memory)) (length memory) []
unfolding of_size
of_size-Waiting memory = record {
  slack = memory;
  view = record { contents = refl; at = refl; filled = refl; started = omega arith; sized = refl };
  open_line = refl;
  size_is = refl;
  mode = refl;
}

remaining-Pending :
    (s : LineState) (size : ℕ) (rest : Bytes) → Pending s size rest → remaining s ≡ rest
unfolding remaining
remaining-Pending s size rest p =
    let n : s.buf_len - s.line_start ≡ length rest = omega (arith, p.starts, p.filled) in
    rw (
      p.open_line,
      n,
      p.starts,
      p.contents,
      drop-append p.before (rest ++ p.slack),
      take-append rest p.slack,
    )

-- `consume` moves the rest to the front, and says whether there is room behind it.
pub consume-Waiting :
    (s : LineState) (size : ℕ) (rest : Bytes)
    → Pending s size rest
    → ((consume s).0 ≡ ltb (length rest) size) × Waiting (consume s).1 size rest
unfolding consume
consume-Waiting s size rest p =
    let e = remaining-Pending s size rest p in
    (
      rw (e, p.size_is),
      record {
        slack = drop (0 + length (remaining s)) s.buf;
        view = record {
          contents = rw e;
          at = refl;
          filled = omega (arith, ap length e);
          started = omega arith;
          sized = omega (
            arith,
            ap length e,
            p.sized,
            ap length p.contents,
            length-append p.before (rest ++ p.slack),
            length-append rest p.slack,
            length-append (remaining s) (drop (0 + length (remaining s)) s.buf),
            length-drop (0 + length (remaining s)) s.buf,
          );
        };
        open_line = refl;
        size_is = p.size_is;
        mode = p.mode;
      },
    )

-- the part of the input that one read takes
abbrev pub taken : ℕ → Bytes → Bytes → Bytes
taken size rest input = take (size - length rest) input

pub read_stream-View :
    (s : LineState) (size : ℕ) (rest input : Bytes)
    → Waiting s size rest
    → (slack : Bytes) × View (read_stream s input).1 [] (rest ++ taken size rest input) slack
unfolding read_stream
read_stream-View s size rest input w =
    let c = taken size rest input in
    let n : s.buf_len ≡ length rest = omega (arith, w.view.filled) in
    let k : take (s.buf_size - s.buf_len) input ≡ c = rw (w.size_is, n) in
    let front : take (length rest) s.buf ≡ rest = rw (w.view.contents) (take-append rest w.slack) in
    let tail = drop (length rest + length c) s.buf in
    let fits : length c ≤ s.buf_size - length rest =
      omega (arith, w.size_is, length-take (size - length rest) input) in
    let whole : length s.buf ≡ length rest + length w.slack =
      ap length w.view.contents ∙ length-append rest w.slack in
    (
      tail,
      record {
        contents = rw (k, n, front) (sym (append_assoc rest c tail));
        at = w.view.at;
        filled = rw k (omega (arith, n, length-append rest c));
        started = w.view.started;
        sized =
            rw (k, n, front)
              (omega (
                arith,
                w.view.sized,
                whole,
                fits,
                length-append rest (c ++ tail),
                length-append c tail,
                length-drop (length rest + length c) s.buf,
              ));
      },
    )

pub read_stream-mode :
    (s : LineState) (input : Bytes) → (read_stream s input).1.http_mode ≡ s.http_mode
unfolding read_stream
read_stream-mode s input = refl

pub read_stream-size :
    (s : LineState) (input : Bytes) → (read_stream s input).1.buf_size ≡ s.buf_size
unfolding read_stream
read_stream-size s input = refl

-- One filled buffer: its lines, and the buffer behind `consume`.
pub filled_once :
    (s : LineState) (size : ℕ) (rest input : Bytes)
    → Waiting s size rest
    → NoNul (rest ++ taken size rest input)
    → let t = (read_stream s input).1 in
      let spec = lines (rest ++ taken size rest input) in
      (q : LineState) × (each_line (suc t.buf_len) t ≡ some (spec.0, q))
      × ((consume q).0 ≡ ltb (length spec.1) size)
      × Waiting (consume q).1 size spec.1
filled_once s size rest input w z =
    let (slack, v) = read_stream-View s size rest input w in
    let t = (read_stream s input).1 in
    let (q, e, p) =
      each_line-lines (suc t.buf_len) t [] (rest ++ taken size rest input) slack v z
        (read_stream-mode s input ∙ w.mode) (omega (arith, v.filled)) in
    let p' =
      subst (λ n. Pending q n (lines (rest ++ taken size rest input)).1)
        (read_stream-size s input ∙ w.size_is) p in
    let (flag, w') = consume-Waiting q size (lines (rest ++ taken size rest input)).1 p' in
    (q, e, flag, w')

-- One round of the reading loop: the lines of what waited and what was read, the rest kept, and the
-- flag whether the buffer has room for more.
pub receive-lines :
    (s : LineState) (size : ℕ) (rest input : Bytes)
    → Waiting s size rest
    → NoNul (rest ++ taken size rest input)
    → let spec = lines (rest ++ taken size rest input) in
      (s' : LineState) × (receive s input ≡ some (spec.0, ltb (length spec.1) size, s'))
      × Waiting s' size spec.1
unfolding receive
receive-lines s size rest input w z =
    let (q, e, flag, w') = filled_once s size rest input w z in ((consume q).1, rw (e, flag), w')
