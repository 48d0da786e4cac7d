-- ===== src/Reporting/Samples/Tests.antt =====
-- The samples of a short run, where no file can be read and there is no monitor.
use apib.Prelude.{
  ℕ, ◌+◌, ◌-◌, ◌*◌, ◌/◌, ◌≡◌, refl, true, none, some, [], ◌∷◌, ltb, ◌>>=◌, replicate,
}
use apib.Prelude.Int.{ℤ, positive_part}
use apib.Prelude.Doubles.{Doubles}
use apib.Cpu.{get_ticks, cpu_get_usage, cpu_get_interval, cpu_get_memory_usage}
use apib.Reporting.Monitors.{Remote, Dial, Exchange, sample, start, stop}
use apib.Reporting.Samples.{Samples, Local, record_init, start_samples, sample_cpu, stop_samples}

abbrev whole : Doubles
whole = record {
  D = ℕ;
  of = λ n. n;
  trunc = λ x. x;
  of_int = positive_part;
  add = λ x y. x + y;
  sub = λ x y. x - y;
  mul = λ x y. x * y;
  div = λ x y. x / y;
  sqrt = λ x. x;
  square = λ x. x * x;
  less = ltb;
}

abbrev remote : Remote ℕ
remote = record { host = []; fd = 0; samples = []; mem = 0; opened = []; closed = [] }

abbrev new : Samples ℕ
new = record {
  cpu_available = true;
  cpu_usage = record { idle = ℤ.pos 0; non_idle = ℤ.pos 0; timestamp = 0 };
  client_samples = 5 ∷ [];
  client_mem = 1;
  remote = remote;
  remote2 = remote;
}

abbrev unread : Local
unread = record { memory = replicate 8192 0; stat = none; meminfo = none; now = 3 }

abbrev dial : Dial
dial = record { lookup_ok = true; socket = 3; connect_ok = true }

abbrev silent : Exchange
silent = record { wrote = none; got = none }

-- RecordStart forgets the samples before it, and each of the others adds one.
two_samples :
    (start_samples whole
        (λ s. 0)
        (λ s. none)
        (λ s. none)
        unread
        (dial, silent)
        (dial, silent)
        (record_init (ℤ.pos 0) [] [] new)
      >>= λ m. sample_cpu whole (λ s. 0) (λ s. none) (λ s. none) unread silent silent m >>= λ m'.
          stop_samples whole
            (λ s. 0)
            (λ s. none)
            (λ s. none)
            unread
            (silent, silent)
            (silent, silent)
            m'
          >>= λ e. some e.client_samples)
    ≡ some (0 ∷ 0 ∷ [])
unfolding start_samples sample_cpu stop_samples record_init get_ticks cpu_get_usage cpu_get_interval
    cpu_get_memory_usage start sample stop
two_samples = refl
