-- ===== src/Reporting/Monitors/Tests.antt =====
-- The theorems on the descriptors of a remote monitor at a concrete monitor.
use apib.Prelude.{
  ℕ, ◌≡◌, refl, true, false, some, none, Option, List, [], ◌∷◌, ◌++◌, Bytes, codes, length, arith,
}
use apib.Prelude.Int.{ℤ}
use apib.Reporting.Monitors.{Remote, Dial, Exchange, split_at_colon, connect_monitor, end_reporting}
use apib.Reporting.Monitors.Descriptors.{
  Use, apply_all, end_reporting-closes, failed_dial-closes_twice,
}

-- texts stand for their lengths
abbrev strtod : Bytes → ℕ
strtod = length

abbrev simple_atoi : Bytes → Option ℤ
simple_atoi text = some (ℤ.pos (length text))

abbrev monitor : Remote ℕ
monitor = record { host = codes "h:9"; fd = 0; samples = []; mem = 0; opened = []; closed = [] }

abbrev dial : Dial
dial = record { lookup_ok = true; socket = 7; connect_ok = true }

abbrev refused : Dial
refused = record { lookup_ok = true; socket = 7; connect_ok = false }

abbrev answered : Exchange
answered = record { wrote = some 4; got = some (codes "0.5\n") }

abbrev lost : Exchange
lost = record { wrote = some 4; got = none }

-- a run whose second sample fails, and then a new run
abbrev runs : List Use
runs =
    Use.starts dial answered
    ∷ Use.samples answered
    ∷ Use.samples lost
    ∷ Use.starts (record dial { socket = 8 }) answered
    ∷ Use.stops answered answered
    ∷ []

end_reporting-closes_example :
    (m : Remote ℕ) × (apply_all 0 strtod simple_atoi runs monitor ≡ some m)
    × ((end_reporting m).closed ≡ (end_reporting m).opened)
end_reporting-closes_example =
    end_reporting-closes 0 strtod simple_atoi runs monitor
      ((omega arith, refl), (tt, (tt, ((omega arith, refl), (tt, tt))))) refl

splits : split_at_colon monitor.host ≡ some (codes "h", codes "9")
unfolding split_at_colon
splits = refl

failed_dial-closes_twice_example :
    (m : Remote ℕ) × (connect_monitor simple_atoi refused monitor ≡ some m)
    × ((end_reporting m).closed ≡ ([] ++ (7 ∷ [])) ++ (7 ∷ []))
failed_dial-closes_twice_example =
    failed_dial-closes_twice 0 strtod simple_atoi refused monitor (codes "h") (codes "9") (ℤ.pos 1)
      refl splits refl refl (omega arith) refl
