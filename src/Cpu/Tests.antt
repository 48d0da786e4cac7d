-- ===== src/Cpu/Tests.antt =====
-- Small files of /proc.
use apib.Prelude.{
  ℕ, ◌+◌, ◌-◌, ◌*◌, ◌≡◌, refl, true, Option, some, none, [], ◌∷◌, Bytes, codes, equal, leb, ltb,
  ◌&&◌, ◌==◌, if◌then◌else◌, All-none, replicate, arith, ◌≤◌, ◌/◌,
}
use apib.Prelude.Int.{ℤ, ◌+ℤ◌, ◌-ℤ◌, positive_part}
use apib.Prelude.Doubles.{Doubles}
use apib.Lines.{is_char}
use apib.Lines.Stream.Spec.{lines}
use apib.Lines.Words.{words}
use apib.Cpu.{
  CpuUsage, is_processor, cpu_count, get_ticks, cpu_get_interval, cpu_get_memory_usage, used_share,
  cpu_init,
}
use apib.Cpu.Count.{cpu_count-processors}
use apib.Cpu.Ticks.{get_ticks-ticks_of}
use apib.Cpu.Interval.{cpu_get_interval-share}
use apib.Cpu.Memory.{cpu_get_memory_usage-memory_share}

abbrev memory : Bytes
memory = replicate 8192 0

abbrev cpuinfo : Bytes
cpuinfo = codes "processor\t: 0\nflags\t\t: a\n\nprocessor\t: 1\n"

cpu_count-processors_example : cpu_count memory (some cpuinfo) ≡ some 2
unfolding lines is_char is_processor equal
cpu_count-processors_example =
    cpu_count-processors memory cpuinfo refl (All-none (λ c. c == 0) cpuinfo refl) (omega arith)

abbrev digits : ℕ → Bytes → Option ℤ
digits n [] = some (ℤ.pos n)
digits n (c ∷ cs) = if leb b'0' c && leb c b'9' then digits (n * 10 + (c - b'0')) cs else none

-- decimal numbers without a sign
abbrev parse : Bytes → Option ℤ
parse [] = none
parse (c ∷ cs) = digits 0 (c ∷ cs)

abbrev stat : Bytes
stat = codes "cpu  10 0 20 300 40 0 0 5 x 7\ncpu0 1 2 3\n"

abbrev old : CpuUsage
old = record { idle = ℤ.pos 300; non_idle = ℤ.pos 30; timestamp = 1 }

get_ticks-ticks_of_example :
    get_ticks parse memory (some stat) old
    ≡ some (true, record { idle = ℤ.pos 345; non_idle = ℤ.pos 37; timestamp = 1 })
unfolding lines is_char equal words ◌+ℤ◌
get_ticks-ticks_of_example =
    get_ticks-ticks_of parse memory stat old refl (All-none (λ c. c == 0) stat refl)

abbrev whole : Doubles
whole = record {
  D = ℕ;
  of = λ n. n;
  trunc = λ x. x;
  of_int = positive_part;
  add = λ x y. x + y;
  sub = λ x y. x - y;
  mul = λ x y. x * y;
  div = λ x y. x * 100 / y;
  sqrt = λ x. x;
  square = λ x. x * x;
  less = ltb;
}

cpu_get_interval-share_example :
    (cpu_get_interval parse whole memory (some stat) 9 old
      ≡ some (13, record { idle = ℤ.pos 345; non_idle = ℤ.pos 37; timestamp = 9 }))
    × (37 - 30 ≤ (345 - 300) + (37 - 30))
unfolding lines is_char equal words ◌+ℤ◌
cpu_get_interval-share_example =
    cpu_get_interval-share parse whole memory stat 9 old 345 300 37 30 refl
      (All-none (λ c. c == 0) stat refl) refl refl refl (omega arith) (omega arith)

abbrev meminfo : Bytes
meminfo = codes "MemTotal:  400 kB\nMemFree: 100 kB\nCached: 50\nActive: 1 kB\n"

cpu_get_memory_usage-memory_share_example :
    cpu_get_memory_usage parse whole memory (some meminfo) ≡ some 62
unfolding lines is_char equal used_share ◌+ℤ◌ ◌-ℤ◌
cpu_get_memory_usage-memory_share_example =
    cpu_get_memory_usage-memory_share parse whole memory meminfo refl
      (All-none (λ c. c == 0) meminfo refl) (refl, (refl, (refl, (refl, tt))))

-- CPU_COUNT is taken as it is.
cpu_init-env :
    (cpu_init
      (λ s. ℤ.pos 4)
      true
      true
      (ℤ.pos 100)
      (some (codes "4"))
      2
      (record { count = ℤ.pos 0; ticks_per_second = ℤ.pos 0 })).1.count
    ≡ ℤ.pos 4
unfolding cpu_init
cpu_init-env = refl
