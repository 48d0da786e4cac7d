-- ===== src/Monitor.antt =====
-- apib/apib_mon.h and apib/apib_mon.cc: a connection of the remote monitor, which answers commands
-- line by line. What the processor and the memory measurements print is an argument, for each
-- answer by its number; the listening socket and its thread are not modelled.
pub mod Answers
mod Tests
use apib.Prelude.{
  ℕ, zero, suc, ◌^◌, Bool, true, false, ◌||◌, Option, none, some, List, [], ◌∷◌, ◌++◌, Bytes, codes,
  length, leb, ◌==◌, if◌then◌else◌, ◌>>=◌,
}
use apib.Util.{eqcase}
use apib.Lines.{LineState, ReadResult, of_size, next, line, consume, read_fd}

-- the texts of cpu_GetInterval and cpu_GetMemoryUsage, with two decimals and a newline
pub record Usage : Type 0 where
  pub cpu : ℕ → Bytes
  pub mem : ℕ → Bytes

-- processCommand, as answer number `n`: what is sent back, and whether to close
unfoldable pub process_command : Usage → ℕ → Bytes → Bytes × Bool
process_command u n cmd =
    if eqcase cmd (codes "HELLO")
    then (codes "Hi!\n", false)
    else if eqcase cmd (codes "CPU")
    then (u.cpu n, false)
    else if eqcase cmd (codes "MEM")
    then (u.mem n, false)
    else if eqcase cmd (codes "BYE") || eqcase cmd (codes "QUIT")
    then (codes "BYE\n", true)
    else (codes "Invalid command\n", false)

-- how the inner loop of socketLoop ends, with what was sent back
pub data LoopEnd : Type 0 where
  closing : List Bytes → LoopEnd
  through : LineState → List Bytes → LoopEnd

abbrev pub after_command :
    (LineState → List Bytes → Option LoopEnd)
    → LineState
    → List Bytes
    → Bytes × Bool
    → Option LoopEnd
after_command more s replies (reply, true) = some (LoopEnd.closing (replies ++ (reply ∷ [])))
after_command more s replies (reply, false) = more s (replies ++ (reply ∷ []))

abbrev pub take_command :
    Usage
    → (LineState → List Bytes → Option LoopEnd)
    → List Bytes
    → Bool × LineState
    → Option LoopEnd
take_command u more replies (false, s) = some (LoopEnd.through s replies)
take_command u more replies (true, s) =
    line s >>= λ l. after_command more s replies (process_command u (length replies) l)

unfoldable pub command_lines : Usage → ℕ → LineState → List Bytes → Option LoopEnd
command_lines u zero s replies = none
command_lines u (suc rounds) s replies = next s >>= take_command u (command_lines u rounds) replies

abbrev pub consumed :
    (LineState → List Bytes → Option (List Bytes))
    → List Bytes
    → Bool × LineState
    → Option (List Bytes)
consumed more replies (true, s) = more s replies
consumed more replies (false, s) = some replies

abbrev pub after_commands :
    (LineState → List Bytes → Option (List Bytes)) → LoopEnd → Option (List Bytes)
after_commands more (LoopEnd.closing replies) = some replies
after_commands more (LoopEnd.through s replies) = consumed more replies (consume s)

-- the outer loop of socketLoop, over what read answers; `none`: it reads once more
unfoldable pub read_loop : Usage → List ReadResult → LineState → List Bytes → Option (List Bytes)
read_loop u [] s replies = none
read_loop u (r ∷ rs) s replies =
    let (n, t) = read_fd s r in
    if n == 0 || leb (2 ^ 31) n
    then some replies
    else (command_lines u (suc t.buf_len) t replies >>= after_commands (read_loop u rs))

abbrev pub mon_buf_len : ℕ
mon_buf_len = 128

-- socketLoop; `memory` is the new buffer
unfoldable pub socket_loop : Usage → Bytes → List ReadResult → Option (List Bytes)
socket_loop u memory reads = read_loop u reads (of_size memory mon_buf_len) []
