-- ===== src/Cpu.antt =====
-- apib/apib_cpu.h and apib/apib_cpu_proc.cc: the number of processors, and what Linux says of
-- processors and memory under /proc. A file is its bytes, or `none` if it does not open. The parsers
-- of numbers (absl::SimpleAtoi, atoi) and the arithmetic on doubles are arguments.
pub mod Count
pub mod Ticks
pub mod Interval
pub mod Amounts
pub mod Memory
mod Tests
use apib.Prelude.{
  ℕ, zero, suc, Bool, true, false, not, ◌||◌, Option, none, some, List, [], ◌∷◌, Bytes, codes,
  equal, take, ltb, leb, ◌==◌, if◌then◌else◌, ◌>>=◌, length,
}
use apib.Prelude.Int.{ℤ, ◌+ℤ◌, ◌-ℤ◌, is_at_most_zero}
use apib.Prelude.Doubles.{Doubles}
use apib.Lines.{LineState, of_size, next, line, next_token, read_stream, consume}

abbrev pub proc_buf_len : ℕ
proc_buf_len = 8192

pub record CpuUsage : Type 0 where
  pub idle : ℤ
  pub non_idle : ℤ
  pub timestamp : ℕ

-- the test of cpu_Count on a line
unfoldable pub is_processor : Bytes → Bool
is_processor l =
    let ten = take 10 l in equal ten (codes "processor ") || equal ten (codes "processor\t")

abbrev pub count_line :
    (LineState → ℕ → Option (ℕ × LineState)) → ℕ → Bool × LineState → Option (ℕ × LineState)
count_line more count (false, s) = some (count, s)
count_line more count (true, s) =
    line s >>= λ l. more s (if is_processor l then suc count else count)

-- the inner loop of cpu_Count
unfoldable pub count_lines : ℕ → LineState → ℕ → Option (ℕ × LineState)
count_lines zero s count = none
count_lines (suc rounds) s count = next s >>= count_line (count_lines rounds) count

-- the outer loop; whether `consume` found room is not asked for
unfoldable pub count_loop : ℕ → LineState → Bytes → ℕ → Option ℕ
count_loop zero s input count = none
count_loop (suc rounds) s input count =
    let (rc, t, left) = read_stream s input in
    if rc == 0
    then some count
    else (count_lines (suc t.buf_len) t count >>= λ p. count_loop rounds (consume p.1).1 left p.0)

-- cpu_Count; `memory` is the new buffer. Each round that goes on takes a byte of the file.
unfoldable pub cpu_count : Bytes → Option Bytes → Option ℕ
cpu_count memory none = some 1
cpu_count memory (some content) =
    count_loop (suc (length content)) (of_size memory proc_buf_len) content 0 >>= λ count.
    some (if ltb count 1 then 1 else count)

-- the columns "idle", "iowait" and "steal"
abbrev pub is_idle : ℕ → Bool
is_idle i = i == 3 || i == 4 || i == 7

abbrev pub blanks : Bytes
blanks = codes " \t"

-- what getMemoryUsage takes from /proc/meminfo
pub record MemInfo : Type 0 where
  pub total_mem : ℤ
  pub free_mem : ℤ
  pub buffers : ℤ
  pub cache : ℤ

module _ (simple_atoi : Bytes → Option ℤ) where
  -- a column that is a number, or that `continue` passes
  abbrev pub parsed :
      (LineState → ℕ → ℤ → ℤ → Option (ℤ × ℤ)) → LineState → ℕ → ℤ → ℤ → Option ℤ → Option (ℤ × ℤ)
  parsed more s i idle non_idle none = more s i idle non_idle
  parsed more s i idle non_idle (some c) =
      more s (suc i) (if is_idle i then idle +ℤ c else idle)
        (if is_idle i then non_idle else non_idle +ℤ c)

  -- one round of the loop over the columns: `more` the rounds behind it
  abbrev pub column :
      (LineState → ℕ → ℤ → ℤ → Option (ℤ × ℤ)) → ℕ → ℤ → ℤ → Bytes × LineState → Option (ℤ × ℤ)
  column more i idle non_idle ([], s) = some (idle, non_idle)
  column more i idle non_idle (c ∷ tok, s) = parsed more s i idle non_idle (simple_atoi (c ∷ tok))

  -- the loop over the columns, at most `rounds` times
  unfoldable pub columns : ℕ → LineState → ℕ → ℤ → ℤ → Option (ℤ × ℤ)
  columns zero s i idle non_idle = none
  columns (suc rounds) s i idle non_idle =
      next_token s blanks >>= column (columns rounds) i idle non_idle

  abbrev pub ticks_line :
      (LineState → Option (Option (ℤ × ℤ))) → Bool × LineState → Option (Option (ℤ × ℤ))
  ticks_line more (false, s) = some none
  ticks_line more (true, s) = line s >>= λ l.
      if equal (codes "cpu ") (take 4 l)
      then (next_token s blanks >>= λ p.
          columns (suc s.buf_len) p.1 0 (ℤ.pos 0) (ℤ.pos 0) >>= λ t. some (some t))
      else more s

  -- the loop of getTicks over the lines of the buffer
  unfoldable pub ticks_loop : ℕ → LineState → Option (Option (ℤ × ℤ))
  ticks_loop zero s = none
  ticks_loop (suc rounds) s = next s >>= ticks_line (ticks_loop rounds)

  abbrev pub with_ticks : CpuUsage → Option (ℤ × ℤ) → Bool × CpuUsage
  with_ticks cpu none = (false, cpu)
  with_ticks cpu (some (idle, non_idle)) = (true, record cpu { idle = idle; non_idle = non_idle })

  -- getTicks
  unfoldable pub get_ticks : Bytes → Option Bytes → CpuUsage → Option (Bool × CpuUsage)
  get_ticks memory none cpu = some (false, cpu)
  get_ticks memory (some content) cpu =
      let (_, s, _) = read_stream (of_size memory proc_buf_len) content in
      ticks_loop (suc s.buf_len) s >>= λ t. some (with_ticks cpu t)

  -- cpu_GetUsage, at time `now`
  unfoldable pub cpu_get_usage : Bytes → Option Bytes → ℕ → CpuUsage → Option CpuUsage
  cpu_get_usage memory stat now cpu =
      get_ticks memory stat cpu >>= λ p. some (record p.1 { timestamp = now })

  -- a line of /proc/meminfo: its value, if its name is one of the four
  abbrev pub mem_value : MemInfo → Bytes → Bytes → Option MemInfo
  mem_value m n v =
      if equal (codes "MemTotal:") n
      then (simple_atoi v >>= λ x. some (record m { total_mem = x }))
      else if equal (codes "MemFree:") n
      then (simple_atoi v >>= λ x. some (record m { free_mem = x }))
      else if equal (codes "Buffers:") n
      then (simple_atoi v >>= λ x. some (record m { buffers = x }))
      else if equal (codes "Cached:") n
      then (simple_atoi v >>= λ x. some (record m { cache = x }))
      else some m

  abbrev pub mem_step :
      (LineState → MemInfo → Option (Option MemInfo))
      → LineState
      → Option MemInfo
      → Option (Option MemInfo)
  mem_step more s none = some none
  mem_step more s (some m) = more s m

  abbrev pub mem_line :
      (LineState → MemInfo → Option (Option MemInfo))
      → MemInfo
      → Bool × LineState
      → Option (Option MemInfo)
  mem_line more m (false, s) = some (some m)
  mem_line more m (true, s) = next_token s (codes " ") >>= λ p.
      next_token p.1 (codes " ") >>= λ q. mem_step more q.1 (mem_value m p.0 q.0)

  -- the loop of cpu_GetMemoryUsage; `some none` is a value that is no number
  unfoldable pub mem_loop : ℕ → LineState → MemInfo → Option (Option MemInfo)
  mem_loop zero s m = none
  mem_loop (suc rounds) s m = next s >>= mem_line (mem_loop rounds) m

  module _ (d : Doubles) where
    open d use {D, of, of_int, div}

    abbrev pub share : ℤ → ℤ → D
    share usage (ℤ.pos zero) = of 0
    share usage (ℤ.pos (suc n)) = div (of_int usage) (of_int (ℤ.pos (suc n)))
    share usage (ℤ.negsuc n) = div (of_int usage) (of_int (ℤ.negsuc n))

    -- cpu_GetInterval, at time `now`: the share, and the usage that is kept
    unfoldable pub cpu_get_interval : Bytes → Option Bytes → ℕ → CpuUsage → Option (D × CpuUsage)
    cpu_get_interval memory stat now old = get_ticks memory stat old >>= λ p.
        let cpu = record p.1 { timestamp = now } in
        let idle_ticks = cpu.idle -ℤ old.idle in
        let usage_ticks = cpu.non_idle -ℤ old.non_idle in
        let all_usage_ticks = idle_ticks +ℤ usage_ticks in
        if not p.0 then some (of 0, old) else some (share usage_ticks all_usage_ticks, cpu)

    -- the end of cpu_GetMemoryUsage
    unfoldable pub used_share : Option MemInfo → D
    used_share none = of 0
    used_share (some m) =
        if is_at_most_zero m.total_mem || is_at_most_zero m.free_mem
        then of 0
        else div (of_int (m.total_mem -ℤ (m.free_mem +ℤ m.buffers +ℤ m.cache))) (of_int m.total_mem)

    -- cpu_GetMemoryUsage
    unfoldable pub cpu_get_memory_usage : Bytes → Option Bytes → Option D
    cpu_get_memory_usage memory none = some (of 0)
    cpu_get_memory_usage memory (some content) =
        let (_, s, _) = read_stream (of_size memory proc_buf_len) content in
        let zero_mem : MemInfo = record {
          total_mem = ℤ.pos 0;
          free_mem = ℤ.pos 0;
          buffers = ℤ.pos 0;
          cache = ℤ.pos 0;
        } in
        mem_loop (suc s.buf_len) s zero_mem >>= λ m. some (used_share m)

-- The statics of the file: the number of processors, and what sysconf says of ticks in a second.
pub record CpuStatics : Type 0 where
  pub count : ℤ
  pub ticks_per_second : ℤ

abbrev checked : ℤ → ℤ
checked (ℤ.pos n) = ℤ.pos 0
checked (ℤ.negsuc n) = ℤ.negsuc 2

-- cpu_Init, for what `stat` says of the two files, sysconf, CPU_COUNT, and cpu_Count
unfoldable pub cpu_init :
    (Bytes → ℤ) → Bool → Bool → ℤ → Option Bytes → ℕ → CpuStatics → ℤ × CpuStatics
cpu_init atoi false meminfo ticks count_str count s = (ℤ.negsuc 0, s)
cpu_init atoi true false ticks count_str count s = (ℤ.negsuc 1, s)
cpu_init atoi true true ticks (some count_str) count s =
    (ℤ.pos 0, record { count = atoi count_str; ticks_per_second = ticks })
cpu_init atoi true true ticks none count s =
    (checked (ℤ.pos count), record { count = ℤ.pos count; ticks_per_second = ticks })
