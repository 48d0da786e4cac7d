-- ===== src/Thread/Resize.antt =====
-- apib/apib_iothread.cc, setNumConnections and processCommands: the connections of a thread.
use apib.Prelude.{
  ℕ, zero, suc, ◌+◌, ◌-◌, ◌≤◌, ◌≡◌, refl, sym, ap, ◌∙◌, subst, Bool, false, some, List, [], ◌∷◌,
  ◌++◌, append_assoc, append-nil, length, length-append, ltb, arith, inl, inr, Bool-cases,
}
use apib.Thread.{
  Command, Effect, IoThread, pop, grow, shrink, back, pop_back, set_num_connections, run_command,
  command_loop, process_commands,
}

-- the numbers below n
abbrev pub upto : ℕ → List ℕ
upto zero = []
upto (suc n) = upto n ++ (n ∷ [])

-- connections m, m + 1, ... start
abbrev pub starts : ℕ → ℕ → List Effect
starts zero m = []
starts (suc k) m = Effect.start_connect m ∷ starts k (suc m)

-- connections m - 1, m - 2, ... are asked to stop
abbrev pub stops : ℕ → ℕ → List Effect
stops zero m = []
stops (suc k) zero = []
stops (suc k) (suc m) = Effect.stop_running m ∷ stops k m

length-upto : (n : ℕ) → length (upto n) ≡ n
length-upto zero = refl
length-upto (suc n) = length-append (upto n) (n ∷ []) ∙ omega (arith, length-upto n)

back-append : (xs : List ℕ) (d x : ℕ) → back d (xs ++ (x ∷ [])) ≡ x
back-append [] d x = refl
back-append (y ∷ ys) d x = back-append ys y x

pop_back-append : (xs : List ℕ) (x : ℕ) → pop_back (xs ++ (x ∷ [])) ≡ xs
pop_back-append [] x = refl
pop_back-append (y ∷ []) x = refl
pop_back-append (y ∷ z ∷ ys) x = ap (λ r. y ∷ r) (pop_back-append (z ∷ ys) x)

pub grow-upto :
    (k m : ℕ) (commands : List Command) (on : Bool) (es : List Effect)
    → grow k m
        (record { commands = commands; connections = upto m; keep_running = on; effects = es })
      ≡ record {
        commands = commands;
        connections = upto (k + m);
        keep_running = on;
        effects = es ++ starts k m;
      }
grow-upto zero m commands on es =
    let plus : 0 + m ≡ m = omega arith in rw (append-nil es, plus) refl
grow-upto (suc k) m commands on es =
    grow-upto k (suc m) commands on (es ++ (Effect.start_connect m ∷ []))
    ∙ rw (append_assoc es (Effect.start_connect m ∷ []) (starts k (suc m)), plus) refl
  where
    plus : k + suc m ≡ suc k + m
    plus = omega arith

shrink-upto :
    (k m : ℕ) (commands : List Command) (on : Bool) (es : List Effect)
    → k ≤ m
    → shrink k
        (record { commands = commands; connections = upto m; keep_running = on; effects = es })
      ≡ record {
        commands = commands;
        connections = upto (m - k);
        keep_running = on;
        effects = es ++ stops k m;
      }
shrink-upto zero m commands on es h =
    let minus : m - 0 ≡ m = omega arith in rw (append-nil es, minus) refl
shrink-upto (suc k) zero commands on es h = absurd (omega arith)
shrink-upto (suc k) (suc m) commands on es h =
    rw (back-append (upto m) 0 m, pop_back-append (upto m) m)
      (shrink-upto k m commands on (es ++ (Effect.stop_running m ∷ [])) (omega arith)
        ∙ rw (append_assoc es (Effect.stop_running m ∷ []) (stops k m), minus) refl)
  where
    minus : suc m - suc k ≡ m - k
    minus = omega arith

-- what a change from m connections to n asks for
abbrev pub changes : ℕ → ℕ → List Effect
changes m n = starts (n - m) m ++ stops (m - n) m

set_num_connections_fields :
    (m n : ℕ) (commands : List Command) (on : Bool) (es : List Effect)
    → set_num_connections
        (record { commands = commands; connections = upto m; keep_running = on; effects = es })
        n
      ≡ record {
        commands = commands;
        connections = upto n;
        keep_running = on;
        effects = es ++ changes m n;
      }
unfolding set_num_connections
set_num_connections_fields m n commands on es = elim (Bool-cases (ltb m n)) [
  | inl more ↦
      (let up : (n - m) + m ≡ n = ground arith in
        let none_fewer : m - n ≡ 0 = ground arith in
        rw (length-upto m, more)
          (grow-upto (n - m) m commands on es ∙ rw (up, none_fewer, append-nil) refl))
  | inr fewer ↦
      (let down : m - (m - n) ≡ n = ground arith in
        let none_more : n - m ≡ 0 = ground arith in
        rw (length-upto m, fewer)
          (shrink-upto (m - n) m commands on es (omega arith) ∙ rw (down, none_more) refl))
]

-- setNumConnections on connections 0 to m - 1 leaves 0 to n - 1: it starts the missing ones in
-- order, or asks the last ones to stop, the last one first, and does nothing else.
set_num_connections-upto :
    (t : IoThread) (m n : ℕ)
    → t.connections ≡ upto m
    → set_num_connections t n
      ≡ record t { connections = upto n; effects = t.effects ++ changes m n }
set_num_connections-upto t m n h =
    subst
      (λ cs.
        set_num_connections (record t { connections = cs }) n
        ≡ record t { connections = upto n; effects = t.effects ++ changes m n })
      (sym h) (set_num_connections_fields m n t.commands t.keep_running t.effects)

-- the number of connections that the commands ask for in the end
abbrev pub wanted : ℕ → List Command → ℕ
wanted m [] = m
wanted m (Command.stop s ∷ cs) = wanted m cs
wanted m (Command.set_connections n ∷ cs) = wanted n cs

abbrev pub still_on : Bool → List Command → Bool
still_on on [] = on
still_on on (Command.stop s ∷ cs) = still_on false cs
still_on on (Command.set_connections n ∷ cs) = still_on on cs

abbrev pub asked : ℕ → List Command → List Effect
asked m [] = []
asked m (Command.stop s ∷ cs) =
    (Effect.unref ∷ Effect.start_shutdown_timer s ∷ Effect.unref ∷ []) ++ asked m cs
asked m (Command.set_connections n ∷ cs) = changes m n ++ asked n cs

command_loop-all :
    (cs : List Command) (m : ℕ) (on : Bool) (es : List Effect)
    → command_loop
        (suc (length cs))
        (record { commands = cs; connections = upto m; keep_running = on; effects = es })
      ≡ some (record {
        commands = [];
        connections = upto (wanted m cs);
        keep_running = still_on on cs;
        effects = es ++ asked m cs;
      })
unfolding pop run_command
command_loop-all [] m on es = rw (append-nil es) refl
command_loop-all (Command.stop s ∷ cs) m on es =
    command_loop-all cs m false
      (es ++ (Effect.unref ∷ Effect.start_shutdown_timer s ∷ Effect.unref ∷ []))
    ∙ rw
        (append_assoc es (Effect.unref ∷ Effect.start_shutdown_timer s ∷ Effect.unref ∷ [])
          (asked m cs))
        refl
command_loop-all (Command.set_connections n ∷ cs) m on es =
    rw (set_num_connections_fields m n cs on es) (
      command_loop-all cs n on (es ++ changes m n)
      ∙ rw (append_assoc es (changes m n) (asked n cs)) refl)

-- For a thread whose connections are numbered from 0, processCommands ends, runs every queued
-- command in order and empties the queue: the last number set decides on the connections, any stop
-- clears the flag, and the effects are those of the commands in order.
pub process_commands-all :
    (t : IoThread) (m : ℕ)
    → t.connections ≡ upto m
    → process_commands t
      ≡ some (record {
        commands = [];
        connections = upto (wanted m t.commands);
        keep_running = still_on t.keep_running t.commands;
        effects = t.effects ++ asked m t.commands;
      })
unfolding process_commands
process_commands-all t m h =
    subst
      (λ cs.
        command_loop (suc (length t.commands)) (record t { connections = cs })
        ≡ some (record {
          commands = [];
          connections = upto (wanted m t.commands);
          keep_running = still_on t.keep_running t.commands;
          effects = t.effects ++ asked m t.commands;
        }))
      (sym h) (command_loop-all t.commands m t.keep_running t.effects)
