-- ===== src/Main/Run/Threads.antt =====
-- apib/apib_main.cc, initializeThread and main: the number of threads, and the connections that they
-- are given.
use apib.Prelude.{
  ℕ, zero, suc, ◌+◌, ◌/◌, ◌%◌, ◌<◌, ◌≤◌, ◌≡◌, refl, sym, ap, ◌∙◌, Bool, true, false, Bool-cases,
  inl, inr, Option, none, some, List, [], ◌∷◌, Bytes, length, ltb, ◌==◌, if◌then◌else◌, arith, All,
}
use apib.Prelude.Int.{ℤ, positive_part, pos-add}
use apib.Main.{num_conn}
use apib.Main.Split.{total, num_conn-total}
use apib.Main.Options.{Options}
use apib.Main.Run.{
  less_int, Machine, ThreadSetup, Initialized, num_conn_int, signed, set_up, initialize_thread,
  thread_count, after_ssl, file_data,
}
use apib.Main.Program.{Started, start_threads, more_started, run}

-- For one connection at least, and a processor, there is a thread, and no more than connections.
thread_count-bounds :
    (o : Options) (c cpus : ℕ)
    → o.num_connections ≡ ℤ.pos c
    → 0 < c
    → 0 < cpus
    → (k : ℕ) × (thread_count o cpus ≡ ℤ.pos k) × (0 < k) × (k ≤ c)
unfolding thread_count
thread_count-bounds o c cpus e pos some_cpu = rw e (cases o.num_threads)
  where
    settled :
        (k : ℕ)
        → 0 < k
        → (j : ℕ) × ((if ltb c k then ℤ.pos c else ℤ.pos k) ≡ ℤ.pos j) × (0 < j) × (j ≤ c)
    settled k h = elim (Bool-cases (ltb c k)) [
      | inl few ↦ (c, rw few refl, pos, omega arith)
      | inr many ↦ (k, rw many refl, h, ground arith)
    ]

    cases :
        (t : ℤ)
        → let asked = if less_int t (ℤ.pos 1) then ℤ.pos cpus else t in
          (j : ℕ) × ((if less_int (ℤ.pos c) asked then ℤ.pos c else asked) ≡ ℤ.pos j)
          × (0 < j)
          × (j ≤ c)
    cases (ℤ.pos zero) = settled cpus some_cpu
    cases (ℤ.pos (suc t)) =
        let given : ltb (suc t) 1 ≡ false = ground arith in rw given (settled (suc t) (omega arith))
    cases (ℤ.negsuc t) = settled cpus some_cpu

signed-false : (n : ℕ) → signed false n ≡ ℤ.pos n
signed-false zero = refl
signed-false (suc n) = refl

num_conn_int-num_conn :
    (c k i : ℕ) → 0 < k → num_conn_int (ℤ.pos c) (ℤ.pos k) i ≡ some (ℤ.pos (num_conn c k i))
unfolding num_conn_int num_conn
num_conn_int-num_conn c zero i pos = absurd (omega arith)
num_conn_int-num_conn c (suc k) i pos =
    let m : c + 0 ≡ c = omega arith in
    let n : suc k + 0 ≡ suc k = omega arith in
    let nonzero : (suc k == 0) ≡ false = ground arith in
    rw (m, n, nonzero, signed-false (c / suc k), signed-false (c % suc k), pos-add (c / suc k) 1)
      (elim (Bool-cases (ltb i (c % suc k))) [
        | inl more ↦ rw more (ap (λ x. some (ℤ.pos x)) (omega arith))
        | inr even ↦ rw even refl
      ])

abbrev pub connections : List ThreadSetup → ℕ
connections [] = 0
connections (t ∷ ts) = positive_part t.num_connections + connections ts

-- The threads that main has started: all of them, or those before the first error.
abbrev HasStarted : ℕ → ℕ → ℕ → ℕ → Option Started → Type 0
HasStarted c k rounds i o =
    (ts : List ThreadSetup) × (done : Bool) × (o ≡ some (ts, done))
    × All
        (λ t.
          (t.num_connections ≡ ℤ.pos (positive_part t.num_connections))
          × (0 < positive_part t.num_connections))
        ts
    × (done ≡ true → (length ts ≡ rounds) × (total c k i + connections ts ≡ total c k (i + rounds)))

num_conn-pos : (c k i : ℕ) → 0 < k → k ≤ c → 0 < num_conn c k i
unfolding num_conn
num_conn-pos c k i pos h = let q : 1 ≤ c / k = grind arith in ground arith

abbrev Gives : ℤ → Initialized → Type 0
Gives n (Initialized.error code) = Unit
Gives n (Initialized.ready t) = t.num_connections ≡ n

after_ssl-Gives : (t : ThreadSetup) (code : ℤ) → Gives t.num_connections (after_ssl t code)
after_ssl-Gives t (ℤ.pos zero) = refl
after_ssl-Gives t (ℤ.pos (suc n)) = tt
after_ssl-Gives t (ℤ.negsuc n) = tt

set_up-Gives :
    (m : Machine) (o : Options) (ix : ℕ) (n : ℤ) (f : Option Bytes) → Gives n (set_up m o ix n f)
set_up-Gives m o ix n none = tt
set_up-Gives m o ix n (some send_data) = after_ssl-Gives _ _

initialize_thread-Gives :
    (m : Machine) (o : Options) (c k ix : ℕ)
    → o.num_connections ≡ ℤ.pos c
    → 0 < k
    → (r : Initialized) × (initialize_thread m o (ℤ.pos k) ix ≡ some r)
      × Gives (ℤ.pos (num_conn c k ix)) r
unfolding initialize_thread
initialize_thread-Gives m o c k ix e pos = (
  set_up m o ix (ℤ.pos (num_conn c k ix)) (file_data m.read_file o.file_name),
  rw (e, num_conn_int-num_conn c k ix pos) refl,
  set_up-Gives m o ix (ℤ.pos (num_conn c k ix)) (file_data m.read_file o.file_name),
)

more_started-HasStarted :
    (c k rounds i : ℕ) (rest : Option Started) (r : Initialized)
    → 0 < k
    → k ≤ c
    → Gives (ℤ.pos (num_conn c k i)) r
    → HasStarted c k rounds (i + 1) rest
    → HasStarted c k (suc rounds) i (more_started rest r)
more_started-HasStarted c k rounds i rest (Initialized.error code) pos few g h =
    ([], false, refl, tt, λ e. cc)
more_started-HasStarted c k rounds i rest (Initialized.ready t) pos few g
      (ts, done, e, all, counted) =
    let n : positive_part t.num_connections ≡ num_conn c k i = ap positive_part g in
    let p = num_conn-pos c k i pos few in
    let i' : i + 1 ≡ suc i = omega arith in
    let next : total c k (i + 1) ≡ total c k i + num_conn c k i = ap (total c k) i' in
    let last : total c k (i + 1 + rounds) ≡ total c k (i + suc rounds) =
      ap (total c k) (let z : i + 1 + rounds ≡ i + suc rounds = omega arith in z) in
    (
      t ∷ ts,
      done,
      rw e refl,
      ((g ∙ ap ℤ.pos (sym n), omega (arith, n, p)), all),
      λ d. (ap suc (counted d).0, omega (arith, n, next, last, (counted d).1)),
    )

start_threads-HasStarted :
    (m : Machine) (o : Options) (c k rounds i : ℕ)
    → o.num_connections ≡ ℤ.pos c
    → 0 < k
    → k ≤ c
    → HasStarted c k rounds i (start_threads m o (ℤ.pos k) rounds i)
unfolding start_threads
start_threads-HasStarted m o c k zero i e pos few =
    let z : i + 0 ≡ i = omega arith in
    ([], true, refl, tt, λ d. (refl, omega (arith, ap (total c k) z)))
start_threads-HasStarted m o c k (suc rounds) i e pos few =
    let (r, f, g) = initialize_thread-Gives m o c k i e pos in
    rw f (
      more_started-HasStarted c k rounds i (start_threads m o (ℤ.pos k) rounds (i + 1)) r pos few g
        (start_threads-HasStarted m o c k rounds (i + 1) e pos few))

-- For at least one connection and one processor: the loop that starts the threads ends, each
-- thread it starts has a connection, and if no thread fails to be set up, there are as many as
-- NumThreads says, which together have all the connections.
pub start_threads-total :
    (m : Machine) (o : Options) (c cpus : ℕ)
    → o.num_connections ≡ ℤ.pos c
    → 0 < c
    → 0 < cpus
    → (k : ℕ) × (ts : List ThreadSetup) × (done : Bool) × (thread_count o cpus ≡ ℤ.pos k)
      × (start_threads m o (thread_count o cpus) k 0 ≡ some (ts, done))
      × All (λ t. 0 < positive_part t.num_connections) ts
      × (done ≡ true → (length ts ≡ k) × (connections ts ≡ c))
start_threads-total m o c cpus e pos some_cpu =
    let (k, f, k_pos, few) = thread_count-bounds o c cpus e pos some_cpu in
    let (ts, done, s, all, counted) = start_threads-HasStarted m o c k k 0 e k_pos few in
    let whole = (num_conn-total c k k_pos).0 in
    let z : 0 + k ≡ k = omega arith in
    (
      k,
      ts,
      done,
      f,
      rw f s,
      All-second ts all,
      λ d. ((counted d).0, omega (arith, (counted d).1, ap (total c k) z, whole)),
    )
  where
    All-second :
        (ts : List ThreadSetup)
        → All
            (λ t.
              (t.num_connections ≡ ℤ.pos (positive_part t.num_connections))
              × (0 < positive_part t.num_connections))
            ts
        → All (λ t. 0 < positive_part t.num_connections) ts
    All-second [] h = tt
    All-second (t ∷ ts) h = (h.0.1, All-second ts h.1)

thread_count-zero :
    (o : Options) (cpus : ℕ)
    → o.num_connections ≡ ℤ.pos 0
    → 0 < cpus
    → thread_count o cpus ≡ ℤ.pos 0
unfolding thread_count
thread_count-zero o cpus e some_cpu = rw e (cases o.num_threads)
  where
    settled : (k : ℕ) → 0 < k → (if ltb 0 k then ℤ.pos 0 else ℤ.pos k) ≡ ℤ.pos 0
    settled k h = ground arith

    cases :
        (t : ℤ)
        → let asked = if less_int t (ℤ.pos 1) then ℤ.pos cpus else t in
          (if less_int (ℤ.pos 0) asked then ℤ.pos 0 else asked) ≡ ℤ.pos 0
    cases (ℤ.pos zero) = settled cpus some_cpu
    cases (ℤ.pos (suc t)) =
        let given : ltb (suc t) 1 ≡ false = ground arith in rw given (settled (suc t) (omega arith))
    cases (ℤ.negsuc t) = settled cpus some_cpu

initialize_thread-zero :
    (m : Machine) (o : Options) (ix : ℕ) → initialize_thread m o (ℤ.pos 0) ix ≡ none
unfolding initialize_thread num_conn_int
initialize_thread-zero m o ix = refl

-- With no connection, one request to send and at least one processor, the run divides by zero.
pub run-no_connections :
    (m : Machine) (o : Options)
    → o.num_connections ≡ ℤ.pos 0
    → o.just_once ≡ true
    → 0 < m.cpu_count
    → run m o ≡ none
unfolding run
run-no_connections m o e once cpu =
    rw (thread_count-zero o m.cpu_count e cpu, initialize_thread-zero m o 0, once) refl
