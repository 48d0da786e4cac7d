-- ===== src/Cpu/Memory.antt =====
-- apib/apib_cpu_proc.cc, cpu_GetMemoryUsage: the names and values of /proc/meminfo are the first two
-- words of its lines.
use apib.Prelude.{
  ℕ, zero, suc, ◌<◌, ◌≡◌, refl, sym, ap, ◌∙◌, subst, Bool, true, false, inl, inr, Option, some,
  none, ◌⊎◌, Bool-cases, equal, equal_iff, if◌then◌else◌, List, [], ◌∷◌, ◌++◌, Bytes, arith, length,
  All, length-append, take, drop, take-append-drop,
}
use apib.Prelude.Int.{ℤ}
use apib.Prelude.Doubles.{Doubles}
use apib.Lines.{LineState, of_size, next, read_stream, is_char}
use apib.Lines.View.{View}
use apib.Lines.Next.{next-partial, next-cut, View-cut, cut}
use apib.Lines.Stream.Spec.{lines, lines-plain, lines-cut, Cut-cases}
use apib.Lines.Stream.Drain.{
  NoNul, NoNul-append, Waiting, of_size-Waiting, read_stream-View, read_stream-mode,
}
use apib.Lines.Tokens.{StartsOther}
use apib.Lines.Words.{word, behind_word}
use apib.Lines.NextWord.{Holds, next_token-word}
use apib.Lines.Frame.{Frame-trans, next_token-Frame, cut-Holds, Holds-View}
use apib.Cpu.Amounts.{
  spaces, name_of, value_of, total_name, free_name, buffers_name, cached_name, amount_from,
  all_numbers, memory_share,
}
use apib.Cpu.{
  MemInfo, mem_value, mem_step, mem_line, mem_loop, used_share, cpu_get_memory_usage, proc_buf_len,
}

abbrev pub zero_mem : MemInfo
zero_mem = record { total_mem = ℤ.pos 0; free_mem = ℤ.pos 0; buffers = ℤ.pos 0; cache = ℤ.pos 0 }

module _ (simple_atoi : Bytes → Option ℤ) where
  abbrev pub mem_with : (MemInfo → Option MemInfo) → Option MemInfo → Option MemInfo
  mem_with more none = none
  mem_with more (some m) = more m

  -- what a text of these lines says of memory; `none`: a value is no number
  abbrev pub mem_of : List Bytes → MemInfo → Option MemInfo
  mem_of [] m = some m
  mem_of (l ∷ ls) m =
      mem_with (mem_of ls)
        (mem_value simple_atoi m (word spaces l) (word spaces (behind_word spaces l)))

  mem_step-mem_with :
      (more : LineState → MemInfo → Option (Option MemInfo)) (t : LineState) (ls : List Bytes)
      → ((m : MemInfo) → more t m ≡ some (mem_of ls m))
      → (o : Option MemInfo) → mem_step simple_atoi more t o ≡ some (mem_with (mem_of ls) o)
  mem_step-mem_with more t ls ih none = refl
  mem_step-mem_with more t ls ih (some m) = ih m

  mem_loop-step :
      (k : ℕ) (s : LineState) (m : MemInfo) {p : Bool × LineState}
      → next s ≡ some p
      → mem_loop simple_atoi (suc k) s m ≡ mem_line simple_atoi (mem_loop simple_atoi k) m p
  unfolding mem_loop
  mem_loop-step k s m e = rw e refl

  -- the line of one name and value, and what is seen behind it
  mem_line-words :
      (more : LineState → MemInfo → Option (Option MemInfo)) (m : MemInfo) (s : LineState)
      (l r slack seen : Bytes) (ls : List Bytes)
      → Holds spaces s l (r ++ slack)
      → View s seen r slack
      → s.http_mode ≡ false
      → ((t : LineState) (seen' : Bytes) (m' : MemInfo)
          → View t seen' r slack
          → t.http_mode ≡ false
          → more t m' ≡ some (mem_of ls m'))
      → mem_line simple_atoi more m (true, s) ≡ some (mem_of (l ∷ ls) m)
  unfolding is_char
  mem_line-words more m s l r slack seen ls h v mode ih =
      let (t, e, h') = next_token-word spaces s l (r ++ slack) (omega arith) refl h in
      let y = behind_word spaces l in
      let (u, e', h'') = next_token-word spaces t y (r ++ slack) (omega arith) refl h' in
      let f =
        Frame-trans s t u (next_token-Frame spaces s t (word spaces l) e)
          (next_token-Frame spaces t u (word spaces y) e') in
      let (seen', v') = Holds-View spaces s u l (behind_word spaces y) r slack seen h h'' f v in
      rw (e, e')
        (mem_step-mem_with more u ls (λ m'. ih u seen' m' v' (f.mode_is ∙ mode))
          (mem_value simple_atoi m (word spaces l) (word spaces y)))

  mem_loop-mem_of :
      (k : ℕ) (s : LineState) (m : MemInfo) (seen xs slack : Bytes)
      → View s seen xs slack
      → NoNul xs
      → All (StartsOther spaces) (lines xs).0
      → s.http_mode ≡ false
      → length xs < k
      → mem_loop simple_atoi k s m ≡ some (mem_of (lines xs).0 m)
  mem_loop-mem_of zero s m seen xs slack v z st mode h = absurd (omega arith)
  mem_loop-mem_of (suc k) s m seen xs slack v z st mode h = elim (Cut-cases xs) [
    | inl plain ↦
        mem_loop-step k s m (next-partial s seen xs slack v plain)
        ∙ ap (λ a. some (mem_of a.0 m)) (sym (lines-plain xs plain))
    | inr c ↦
        (let v' = subst (λ x. View s seen x slack) c.splits v in
          let z' = NoNul-append c.l (c.ns ++ c.r) (subst NoNul c.splits z) in
          let zr = (NoNul-append c.ns c.r z'.1).1 in
          let size = ap length c.splits ∙ length-append c.l (c.ns ++ c.r) in
          let size' = length-append c.ns c.r in
          let fewer : length c.r < k = omega (arith, size, size', c.some_end) in
          let t = cut s seen c.l c.ns c.r slack in
          let whole =
            ap lines c.splits ∙ lines-cut c.l c.ns c.r c.plain c.ends c.some_end c.next_plain in
          let st' = subst (λ a. All (StartsOther spaces) a.0) whole st in
          mem_loop-step k s m
            (next-cut s seen c.l c.ns c.r slack v' c.plain c.ends c.some_end c.next_plain mode)
          ∙ mem_line-words (mem_loop simple_atoi k) m t c.l c.r slack _ (lines c.r).0
              (cut-Holds spaces s seen c.l c.ns c.r slack v' z'.0 st'.0 c.some_end)
              (View-cut s seen c.l c.ns c.r slack v') mode
              (λ u seen' m' w mode'. mem_loop-mem_of k u m' seen' c.r slack w zr st'.1 mode' fewer)
          ∙ ap (λ a. some (mem_of a.0 m)) (sym whole))
  ]

  -- the amounts that these lines leave in place of `m`
  abbrev amounts_from : MemInfo → List Bytes → MemInfo
  amounts_from m ls = record {
    total_mem = amount_from simple_atoi m.total_mem total_name ls;
    free_mem = amount_from simple_atoi m.free_mem free_name ls;
    buffers = amount_from simple_atoi m.buffers buffers_name ls;
    cache = amount_from simple_atoi m.cache cached_name ls;
  }

  differ : (n a b : Bytes) → equal a b ≡ false → equal a n ≡ true → equal b n ≡ false
  differ n a b ne e = elim (Bool-cases (equal b n)) [
    | inl f ↦
        (let same : a ≡ b = (equal_iff a n).0 e ∙ sym ((equal_iff b n).0 f) in
          let t = (equal_iff a b).1 same in cc)
    | inr f ↦ f
  ]

  number_cases : (o : Option ℤ) → (o ≡ none) ⊎ ((x : ℤ) × (o ≡ some x))
  number_cases none = inl refl
  number_cases (some x) = inr (x, refl)

  abbrev result_of : MemInfo → List Bytes → Option MemInfo
  result_of m ls = if all_numbers simple_atoi ls then some (amounts_from m ls) else none

  mem_of-amounts : (ls : List Bytes) (m : MemInfo) → mem_of ls m ≡ result_of m ls
  unfolding equal
  mem_of-amounts [] m = refl
  mem_of-amounts (l ∷ ls) m =
      let n = name_of l in
      elim (Bool-cases (equal total_name n)) [
        | inl a ↦
            (let b = differ n total_name free_name refl a in
              let c = differ n total_name buffers_name refl a in
              let e = differ n total_name cached_name refl a in
              elim (number_cases (simple_atoi (value_of l))) [
                | inl p ↦ rw (a, b, c, e, p) refl
                | inr (x, p) ↦ rw (a, b, c, e, p) (mem_of-amounts ls (record m { total_mem = x }))
              ])
        | inr a ↦ elim (Bool-cases (equal free_name n)) [
          | inl b ↦
              (let c = differ n free_name buffers_name refl b in
                let e = differ n free_name cached_name refl b in
                elim (number_cases (simple_atoi (value_of l))) [
                  | inl p ↦ rw (a, b, c, e, p) refl
                  | inr (x, p) ↦ rw (a, b, c, e, p) (mem_of-amounts ls (record m { free_mem = x }))
                ])
          | inr b ↦ elim (Bool-cases (equal buffers_name n)) [
            | inl c ↦
                (let e = differ n buffers_name cached_name refl c in
                  elim (number_cases (simple_atoi (value_of l))) [
                    | inl p ↦ rw (a, b, c, e, p) refl
                    | inr (x, p) ↦ rw (a, b, c, e, p) (mem_of-amounts ls (record m { buffers = x }))
                  ])
            | inr c ↦ elim (Bool-cases (equal cached_name n)) [
              | inl e ↦ elim (number_cases (simple_atoi (value_of l))) [
                | inl p ↦ rw (a, b, c, e, p) refl
                | inr (x, p) ↦ rw (a, b, c, e, p) (mem_of-amounts ls (record m { cache = x }))
              ]
              | inr e ↦ rw (a, b, c, e) (mem_of-amounts ls m)
            ]
          ]
        ]
      ]

  used_share-memory_share :
      (d : Doubles) (ls : List Bytes)
      → used_share simple_atoi d (mem_of ls zero_mem) ≡ memory_share simple_atoi d ls
  unfolding used_share
  used_share-memory_share d ls = elim (Bool-cases (all_numbers simple_atoi ls)) [
    | inl good ↦ rw (mem_of-amounts ls zero_mem, good) refl
    | inr bad ↦ rw (mem_of-amounts ls zero_mem, bad) refl
  ]

  -- For a file without NULs, whose lines within the first 8192 bytes begin with no blank:
  -- cpu_GetMemoryUsage ends and gives the share of MemTotal that is not MemFree, Buffers or
  -- Cached, each the second word of the last line with that first word, or 0 without one; and 0 if
  -- the second word of any line of these names is no number, or if MemTotal or MemFree is not
  -- above 0.
  pub cpu_get_memory_usage-memory_share :
      (d : Doubles) (memory content : Bytes)
      → length memory ≡ proc_buf_len
      → NoNul content
      → let ls = (lines (take proc_buf_len content)).0 in
        All (StartsOther spaces) ls
        → cpu_get_memory_usage simple_atoi d memory (some content)
          ≡ some (memory_share simple_atoi d ls)
  unfolding cpu_get_memory_usage
  cpu_get_memory_usage-memory_share d memory content m z st =
      let s = of_size memory proc_buf_len in
      let w = subst (λ n. Waiting (of_size memory n) n []) m (of_size-Waiting memory) in
      let (slack, v) = read_stream-View s proc_buf_len [] content w in
      let t = (read_stream s content).1 in
      let first = take proc_buf_len content in
      let z' =
        NoNul-append first (drop proc_buf_len content)
          (subst NoNul (sym (take-append-drop proc_buf_len content)) z) in
      let e =
        mem_loop-mem_of (suc t.buf_len) t zero_mem [] first slack v z'.0 st
          (read_stream-mode s content ∙ w.mode) (omega (arith, v.filled)) in
      rw (e, used_share-memory_share d (lines first).0) refl
