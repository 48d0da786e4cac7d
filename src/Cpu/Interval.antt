-- ===== src/Cpu/Interval.antt =====
-- apib/apib_cpu_proc.cc, cpu_GetInterval: the share of the processors that an interval used.
use apib.Prelude.{
  ℕ, zero, suc, ◌+◌, ◌-◌, ◌≤◌, ◌≡◌, refl, ap, ◌∙◌, Bool, true, false, Option, some, none, Bytes,
  arith, length, take, ◌==◌, if◌then◌else◌,
}
use apib.Prelude.Int.{ℤ, ◌+ℤ◌, ◌-ℤ◌, pos-sub, pos-add}
use apib.Prelude.Doubles.{Doubles}
use apib.Lines.Stream.Spec.{lines}
use apib.Lines.Stream.Drain.{NoNul}
use apib.Cpu.{CpuUsage, with_ticks, get_ticks, proc_buf_len, cpu_get_interval, share}
use apib.Cpu.Ticks.{ticks_of, get_ticks-ticks_of}

module _ (simple_atoi : Bytes → Option ℤ) (d : Doubles) where
  -- The share of `used` ticks among `all`, and 0 for an interval without ticks.
  abbrev pub share_of : ℕ → ℕ → d.D
  share_of used all =
      if all == 0 then d.of 0 else d.div (d.of_int (ℤ.pos used)) (d.of_int (ℤ.pos all))

  share-share_of : (used all : ℕ) → share simple_atoi d (ℤ.pos used) (ℤ.pos all) ≡ share_of used all
  share-share_of used zero = refl
  share-share_of used (suc n) = let e : (suc n == 0) ≡ false = ground arith in rw e refl

  abbrev interval_of : ℕ → CpuUsage → Bool × CpuUsage → d.D × CpuUsage
  interval_of now old (false, cpu) = (d.of 0, old)
  interval_of now old (true, cpu) = (
    share simple_atoi d (cpu.non_idle -ℤ old.non_idle)
        ((cpu.idle -ℤ old.idle) +ℤ (cpu.non_idle -ℤ old.non_idle)),
    record cpu { timestamp = now },
  )

  cpu_get_interval-step :
      (memory : Bytes) (stat : Option Bytes) (now : ℕ) (old : CpuUsage) (p : Bool × CpuUsage)
      → get_ticks simple_atoi memory stat old ≡ some p
      → cpu_get_interval simple_atoi d memory stat now old ≡ some (interval_of now old p)
  unfolding cpu_get_interval
  cpu_get_interval-step memory stat now old (false, cpu) e = rw e refl
  cpu_get_interval-step memory stat now old (true, cpu) e = rw e refl

  -- For a file without NULs in which neither the idle nor the other ticks went back since the
  -- usage that was kept: cpu_GetInterval gives the quotient of the other ticks and all ticks of
  -- the interval, the first at most the second, or 0 for an interval without ticks, and keeps the
  -- new usage.
  pub cpu_get_interval-share :
      (memory content : Bytes) (now : ℕ) (old : CpuUsage) (idle idle₀ busy busy₀ : ℕ)
      → length memory ≡ proc_buf_len
      → NoNul content
      → ticks_of simple_atoi (lines (take proc_buf_len content)).0 ≡ some (ℤ.pos idle, ℤ.pos busy)
      → old.idle ≡ ℤ.pos idle₀
      → old.non_idle ≡ ℤ.pos busy₀
      → idle₀ ≤ idle
      → busy₀ ≤ busy
      → (cpu_get_interval simple_atoi d memory (some content) now old
          ≡ some (
            share_of (busy - busy₀) ((idle - idle₀) + (busy - busy₀)),
            record { idle = ℤ.pos idle; non_idle = ℤ.pos busy; timestamp = now },
          ))
        × (busy - busy₀ ≤ (idle - idle₀) + (busy - busy₀))
  cpu_get_interval-share memory content now old idle idle₀ busy busy₀ m z e f g h k =
      let ticks = get_ticks-ticks_of simple_atoi memory content old m z in
      let found = ticks ∙ ap (λ t. some (with_ticks simple_atoi old t)) e in
      (
        cpu_get_interval-step memory (some content) now old _ found
            ∙ rw
                (
                  f,
                  g,
                  pos-sub idle idle₀ h,
                  pos-sub busy busy₀ k,
                  pos-add (idle - idle₀) (busy - busy₀),
                )
                (ap
                  (λ x.
                    some (x, record { idle = ℤ.pos idle; non_idle = ℤ.pos busy; timestamp = now }))
                  (share-share_of (busy - busy₀) ((idle - idle₀) + (busy - busy₀)))),
        omega arith,
      )

  -- For a text without NULs and without a line of the processors, cpu_GetInterval gives 0 and keeps
  -- the usage as it was.
  cpu_get_interval-failed :
      (memory content : Bytes) (now : ℕ) (old : CpuUsage)
      → length memory ≡ proc_buf_len
      → NoNul content
      → ticks_of simple_atoi (lines (take proc_buf_len content)).0 ≡ none
      → cpu_get_interval simple_atoi d memory (some content) now old ≡ some (d.of 0, old)
  cpu_get_interval-failed memory content now old m z e =
      cpu_get_interval-step memory (some content) now old _ (
        get_ticks-ticks_of simple_atoi memory content old m z
        ∙ ap (λ t. some (with_ticks simple_atoi old t)) e)
