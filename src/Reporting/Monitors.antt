-- ===== src/Reporting/Monitors.antt =====
-- apib/apib_reporting.cc: the connection to one remote monitor, its samples and its memory usage. The
-- file keeps the same statics for a second one, and the two do not touch each other. What the system
-- answers, absl::SimpleAtoi and strtod are given; a double is of any type.
pub mod Descriptors
mod Tests
use apib.Prelude.{
  ℕ, zero, suc, ◌+◌, Bool, true, false, Option, none, some, List, [], ◌∷◌, ◌++◌, Bytes, codes,
  length, ◌==◌, if◌then◌else◌, ◌>>=◌,
}
use apib.Prelude.Int.{ℤ}

-- The statics for one monitor. A descriptor of 0 is none; `opened` and `closed` are the results of
-- ::socket and the arguments of ::close so far.
pub record Remote (D : Type 0) : Type 0 where
  pub host : Bytes
  pub fd : ℕ
  pub samples : List D
  pub mem : D
  pub opened : List ℕ
  pub closed : List ℕ

-- what the system says of a connection: whether the lookup succeeds, the descriptor, which is 0 in
-- place of an error, and whether ::connect succeeds
pub record Dial : Type 0 where
  pub lookup_ok : Bool
  pub socket : ℕ
  pub connect_ok : Bool

-- what the system says of one question: the bytes written and those read, or an error
pub record Exchange : Type 0 where
  pub wrote : Option ℕ
  pub got : Option Bytes

-- the text before the first ':' and the one behind it
unfoldable pub split_at_colon : Bytes → Option (Bytes × Bytes)
split_at_colon [] = none
split_at_colon (c ∷ cs) =
    let rest = split_at_colon cs in
    if c == b':' then some ([], cs) else (rest >>= λ p. some (c ∷ p.0, p.1))

module _ {D : Type 0} where
  -- ::socket and ::connect; `none`: the assertion on the descriptor fails
  abbrev pub dialled : Dial → Remote D → Option (Remote D)
  dialled dial m =
      let opened = record m { fd = dial.socket; opened = m.opened ++ (dial.socket ∷ []) } in
      if dial.socket == 0
      then none
      else some (
          if dial.connect_ok
          then opened
          else record opened { closed = opened.closed ++ (dial.socket ∷ []) })

  abbrev pub with_port : Dial → Remote D → Option ℤ → Option (Remote D)
  with_port dial m none = some m
  with_port dial m (some port) = if dial.lookup_ok then dialled dial m else some m

  abbrev pub with_host :
      (Bytes → Option ℤ) → Dial → Remote D → Option (Bytes × Bytes) → Option (Remote D)
  with_host simple_atoi dial m none = some m
  with_host simple_atoi dial m (some (name, port)) = with_port dial m (simple_atoi port)

  -- connectMonitor
  unfoldable pub connect_monitor : (Bytes → Option ℤ) → Dial → Remote D → Option (Remote D)
  connect_monitor simple_atoi dial m = with_host simple_atoi dial m (split_at_colon m.host)

module _ {D : Type 0} (zero_double : D) (strtod : Bytes → D) (simple_atoi : Bytes → Option ℤ) where
  -- the label `failure`
  abbrev pub failure : Remote D → D × Remote D
  failure m = (zero_double, record m { fd = 0; closed = m.closed ++ (m.fd ∷ []) })

  abbrev pub wrote_all : Option ℕ → ℕ → Bool
  wrote_all none size = false
  wrote_all (some n) size = n == size

  abbrev pub after_read : Remote D → Option Bytes → D × Remote D
  after_read m none = failure m
  after_read m (some buf) = (strtod buf, m)

  -- getRemoteStat
  unfoldable pub get_remote_stat : Bytes → Exchange → Remote D → D × Remote D
  get_remote_stat cmd x m = if wrote_all x.wrote (length cmd) then after_read m x.got else failure m

  -- the question of SampleCPU and ReportInterval
  unfoldable pub sample : Exchange → Remote D → Remote D
  sample x m =
      let p = get_remote_stat (codes "cpu\n") x m in
      if m.fd == 0 then m else record (p.1) { samples = p.1.samples ++ (p.0 ∷ []) }

  abbrev pub connect_or_ask : Dial → Exchange → Remote D → Bytes → Option (Remote D)
  connect_or_ask dial x m [] = some m
  connect_or_ask dial x m (c ∷ host) =
      if m.fd == 0
      then connect_monitor simple_atoi dial m
      else some (get_remote_stat (codes "cpu\n") x m).1

  -- the part of RecordStart
  unfoldable pub start : Dial → Exchange → Remote D → Option (Remote D)
  start dial x m = connect_or_ask dial x m m.host >>= λ m'. some (record m' { samples = [] })

  -- the part of RecordStop
  unfoldable pub stop : Exchange → Exchange → Remote D → Remote D
  stop x y m =
      let m' = sample x m in
      let p = get_remote_stat (codes "mem\n") y m' in
      if m'.fd == 0 then m' else record (p.1) { mem = p.0 }

-- EndReporting
unfoldable pub end_reporting : {D : Type 0} → Remote D → Remote D
end_reporting m = if m.fd == 0 then m else record m { closed = m.closed ++ (m.fd ∷ []) }
