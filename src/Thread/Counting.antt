-- ===== src/Thread/Counting.antt =====
-- apib/apib_iothread.cc: the counters of a thread. What the calls of exchangeCounters give and what
-- the thread still holds is together what was recorded.
use apib.Prelude.{
  ℕ, ◌+◌, ◌≡◌, refl, sym, ap, ◌∙◌, ◌&&◌, List, [], ◌∷◌, ◌++◌, append_assoc, append-nil, ltb, leb,
  arith, if◌then◌else◌, inl, inr, Bool-cases,
}
use apib.Thread.{
  Counters, new_counters, record_result, record_read, record_write, exchange_counters,
}

-- What happens to the counters, in the order in which it happens.
pub data CounterCall : Type 0 where
  result : ℕ → ℕ → CounterCall
  reads : ℕ → CounterCall
  writes : ℕ → CounterCall
  exchange : CounterCall

-- the counters that were given away, and those that the thread holds at the end
abbrev pub run_counters : List CounterCall → Counters → List Counters × Counters
run_counters [] c = ([], c)
run_counters (CounterCall.result code latency ∷ calls) c =
    run_counters calls (record_result c code latency)
run_counters (CounterCall.reads n ∷ calls) c = run_counters calls (record_read c n)
run_counters (CounterCall.writes n ∷ calls) c = run_counters calls (record_write c n)
run_counters (CounterCall.exchange ∷ calls) c =
    let (old, new) = exchange_counters c in let r = run_counters calls new in (old ∷ r.0, r.1)

abbrev pub plus : Counters → Counters → Counters
plus a b = record {
  successful_requests = a.successful_requests + b.successful_requests;
  failed_requests = a.failed_requests + b.failed_requests;
  latencies = a.latencies ++ b.latencies;
  bytes_read = a.bytes_read + b.bytes_read;
  bytes_written = a.bytes_written + b.bytes_written;
}

abbrev pub total : List Counters → Counters
total [] = new_counters
total (c ∷ cs) = plus c (total cs)

-- what one call records
abbrev pub recorded : CounterCall → Counters
recorded (CounterCall.result code latency) =
    if leb 200 code && ltb code 300
    then record new_counters { successful_requests = 1; latencies = latency ∷ [] }
    else record new_counters { failed_requests = 1; latencies = latency ∷ [] }
recorded (CounterCall.reads n) = record new_counters { bytes_read = n }
recorded (CounterCall.writes n) = record new_counters { bytes_written = n }
recorded CounterCall.exchange = new_counters

abbrev pub all_recorded : List CounterCall → Counters
all_recorded [] = new_counters
all_recorded (call ∷ calls) = plus (recorded call) (all_recorded calls)

counters_eq :
    (a b : Counters)
    → a.successful_requests ≡ b.successful_requests
    → a.failed_requests ≡ b.failed_requests
    → a.latencies ≡ b.latencies
    → a.bytes_read ≡ b.bytes_read
    → a.bytes_written ≡ b.bytes_written
    → a ≡ b
counters_eq a b s f l r w = λ i. record {
  successful_requests = s i;
  failed_requests = f i;
  latencies = l i;
  bytes_read = r i;
  bytes_written = w i;
}

plus_assoc : (a b c : Counters) → plus (plus a b) c ≡ plus a (plus b c)
plus_assoc a b c =
    counters_eq _ _ (omega arith) (omega arith) (append_assoc a.latencies b.latencies c.latencies)
      (omega arith) (omega arith)

plus_new : (a : Counters) → plus a new_counters ≡ a
plus_new a =
    counters_eq _ _ (omega arith) (omega arith) (append-nil a.latencies) (omega arith) (omega arith)

new_plus : (a : Counters) → plus new_counters a ≡ a
new_plus a = counters_eq _ _ (omega arith) (omega arith) refl (omega arith) (omega arith)

record_result-plus :
    (c : Counters) (code latency : ℕ)
    → record_result c code latency ≡ plus c (recorded (CounterCall.result code latency))
unfolding record_result
record_result-plus c code latency = elim (Bool-cases (leb 200 code && ltb code 300)) [
  | inl good ↦
      rw good (counters_eq _ _ (omega arith) (omega arith) refl (omega arith) (omega arith))
  | inr bad ↦ rw bad (counters_eq _ _ (omega arith) (omega arith) refl (omega arith) (omega arith))
]

record_read-plus :
    (c : Counters) (n : ℕ) → record_read c n ≡ plus c (recorded (CounterCall.reads n))
unfolding record_read
record_read-plus c n =
    counters_eq _ _ (omega arith) (omega arith) (sym (append-nil c.latencies)) (omega arith)
      (omega arith)

record_write-plus :
    (c : Counters) (n : ℕ) → record_write c n ≡ plus c (recorded (CounterCall.writes n))
unfolding record_write
record_write-plus c n =
    counters_eq _ _ (omega arith) (omega arith) (sym (append-nil c.latencies)) (omega arith)
      (omega arith)

-- one call that stays with the thread
stays :
    (calls : List CounterCall) (c d r : Counters)
    → d ≡ plus c r
    → plus (total (run_counters calls d).0) (run_counters calls d).1 ≡ plus d (all_recorded calls)
    → plus (total (run_counters calls d).0) (run_counters calls d).1
      ≡ plus c (plus r (all_recorded calls))
stays calls c d r e ih =
    ih ∙ ap (λ x. plus x (all_recorded calls)) e ∙ plus_assoc c r (all_recorded calls)

-- However exchanges of the counters fall between the records, what the exchanges give and what is
-- left add up to what was there and was recorded.
pub run_counters-total :
    (calls : List CounterCall) (c : Counters)
    → let r = run_counters calls c in plus (total r.0) r.1 ≡ plus c (all_recorded calls)
unfolding exchange_counters
run_counters-total [] c = new_plus c ∙ sym (plus_new c)
run_counters-total (CounterCall.result code latency ∷ calls) c =
    stays calls c _ _ (record_result-plus c code latency)
      (run_counters-total calls (record_result c code latency))
run_counters-total (CounterCall.reads n ∷ calls) c =
    stays calls c _ _ (record_read-plus c n) (run_counters-total calls (record_read c n))
run_counters-total (CounterCall.writes n ∷ calls) c =
    stays calls c _ _ (record_write-plus c n) (run_counters-total calls (record_write c n))
run_counters-total (CounterCall.exchange ∷ calls) c =
    plus_assoc c (total (run_counters calls new_counters).0) (run_counters calls new_counters).1
    ∙ ap (plus c) (run_counters-total calls new_counters)
