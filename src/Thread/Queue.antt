-- ===== src/Thread/Queue.antt =====
-- apib/apib_commandqueue.cc: the queue gives the commands back in the order in which they came.
use apib.Prelude.{
  ◌≡◌, sym, ap, ◌∙◌, Option, none, some, List, [], ◌∷◌, ◌++◌, append_assoc, append-nil,
}
use apib.Thread.{Command, add, pop}

-- A call of the queue, in the order in which the lock lets them through.
pub data QueueCall : Type 0 where
  adds : Command → QueueCall
  pops : QueueCall

abbrev pub added : List QueueCall → List Command
added [] = []
added (QueueCall.adds c ∷ calls) = c ∷ added calls
added (QueueCall.pops ∷ calls) = added calls

abbrev pub handed :
    (List Command → List Command × List Command)
    → List Command
    → Option (Command × List Command)
    → List Command × List Command
handed more commands none = more commands
handed more commands (some (c, cs)) = let r = more cs in (c ∷ r.0, r.1)

-- what the calls of Pop give, and the queue behind them
abbrev pub run_calls : List QueueCall → List Command → List Command × List Command
run_calls [] commands = ([], commands)
run_calls (QueueCall.adds c ∷ calls) commands = run_calls calls (add commands c)
run_calls (QueueCall.pops ∷ calls) commands = handed (run_calls calls) commands (pop commands)

-- However the calls of Add and Pop interleave, the commands given and those still waiting are the
-- first queue and the commands added, in order.
pub run_calls-fifo :
    (calls : List QueueCall) (commands : List Command)
    → let r = run_calls calls commands in r.0 ++ r.1 ≡ commands ++ added calls
unfolding add pop
run_calls-fifo [] commands = sym (append-nil commands)
run_calls-fifo (QueueCall.adds c ∷ calls) commands =
    run_calls-fifo calls (commands ++ (c ∷ [])) ∙ append_assoc commands (c ∷ []) (added calls)
run_calls-fifo (QueueCall.pops ∷ calls) [] = run_calls-fifo calls []
run_calls-fifo (QueueCall.pops ∷ calls) (c ∷ cs) = ap (λ x. c ∷ x) (run_calls-fifo calls cs)
