-- ===== src/Reporting/Samples.antt =====
-- apib/apib_reporting.cc: RecordInit, and the samples of processor and memory that RecordStart, SampleCPU
-- and RecordStop take, of this machine and of the two remote monitors.
mod Tests
use apib.Prelude.{
  ℕ, zero, suc, Bool, true, false, Option, none, some, List, [], ◌∷◌, ◌++◌, Bytes, ◌>>=◌,
}
use apib.Prelude.Int.{ℤ}
use apib.Prelude.Doubles.{Doubles}
use apib.Cpu.{CpuUsage, cpu_get_usage, cpu_get_interval, cpu_get_memory_usage}
use apib.Reporting.Monitors.{Remote, Dial, Exchange, sample, start, stop}

-- the statics for the samples
pub record Samples (D : Type 0) : Type 0 where
  pub cpu_available : Bool
  pub cpu_usage : CpuUsage
  pub client_samples : List D
  pub client_mem : D
  pub remote : Remote D
  pub remote2 : Remote D

-- What the system says at one moment: the memory of a new buffer, the two files, and the time.
pub record Local : Type 0 where
  pub memory : Bytes
  pub stat : Option Bytes
  pub meminfo : Option Bytes
  pub now : ℕ

abbrev is_no_error : ℤ → Bool
is_no_error (ℤ.pos zero) = true
is_no_error (ℤ.pos (suc n)) = false
is_no_error (ℤ.negsuc n) = false

-- RecordInit, for the result of cpu_Init
unfoldable pub record_init : {D : Type 0} → ℤ → Bytes → Bytes → Samples D → Samples D
record_init err monitor_host host2 m = record m {
  cpu_available = is_no_error err;
  remote = record m.remote { host = monitor_host };
  remote2 = record m.remote2 { host = host2 };
}

module _ (d : Doubles) (strtod : Bytes → d.D) (simple_atoi : Bytes → Option ℤ)
    (parse_ticks : Bytes → Option ℤ) where
  -- The part of RecordStart; `none`: an assertion fails.
  unfoldable pub start_samples :
      Local → Dial × Exchange → Dial × Exchange → Samples d.D → Option (Samples d.D)
  start_samples l x y m = cpu_get_usage parse_ticks l.memory l.stat l.now m.cpu_usage >>= λ usage.
      start (d.of 0) strtod simple_atoi x.0 x.1 m.remote >>= λ r.
      start (d.of 0) strtod simple_atoi y.0 y.1 m.remote2 >>= λ r2.
      some (record m { cpu_usage = usage; remote = r; remote2 = r2; client_samples = [] })

  -- SampleCPU, and the part of ReportInterval
  unfoldable pub sample_cpu : Local → Exchange → Exchange → Samples d.D → Option (Samples d.D)
  sample_cpu l x y m = cpu_get_interval parse_ticks d l.memory l.stat l.now m.cpu_usage >>= λ p.
      some (record m {
        remote = sample (d.of 0) strtod simple_atoi x m.remote;
        remote2 = sample (d.of 0) strtod simple_atoi y m.remote2;
        cpu_usage = p.1;
        client_samples = m.client_samples ++ (p.0 ∷ []);
      })

  -- The part of RecordStop: SampleCPU, and then the memory of the three.
  unfoldable pub stop_samples :
      Local → Exchange × Exchange → Exchange × Exchange → Samples d.D → Option (Samples d.D)
  stop_samples l x y m = cpu_get_interval parse_ticks d l.memory l.stat l.now m.cpu_usage >>= λ p.
      cpu_get_memory_usage parse_ticks d l.memory l.meminfo >>= λ mem. some (record m {
        remote = stop (d.of 0) strtod simple_atoi x.0 x.1 m.remote;
        remote2 = stop (d.of 0) strtod simple_atoi y.0 y.1 m.remote2;
        cpu_usage = p.1;
        client_samples = m.client_samples ++ (p.0 ∷ []);
        client_mem = mem;
      })
