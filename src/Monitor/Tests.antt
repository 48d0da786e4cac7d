-- ===== src/Monitor/Tests.antt =====
-- Runs of the remote monitor's connection.
use apib.Prelude.{refl, ◌≡◌, some, List, [], ◌∷◌, Bytes, codes, All-none, ◌==◌, replicate, arith}
use apib.Lines.{is_char}
use apib.Lines.Stream.Spec.{lines}
use apib.Util.{eqcase, eqcase_loop, to_lower, is_upper}
use apib.Monitor.{Usage, process_command, socket_loop}
use apib.Monitor.Answers.{reads, socket_loop-answers}

abbrev usage : Usage
usage = record { cpu = λ n. codes "0.50\n"; mem = λ n. codes "0.25\n" }

abbrev pieces : List Bytes
pieces = codes "cpu\nBY" ∷ codes "E\nMEM\n" ∷ []

socket_loop-answers_example :
    socket_loop usage (replicate 128 0) (reads pieces) ≡ some (codes "0.50\n" ∷ codes "BYE\n" ∷ [])
unfolding lines is_char process_command eqcase eqcase_loop to_lower is_upper
socket_loop-answers_example =
    socket_loop-answers usage (replicate 128 0) pieces refl
      (All-none (λ c. c == 0) (codes "cpu\nBYE\nMEM\n") refl)
      (
        omega arith,
        omega arith,
        omega arith,
        refl,
        omega arith,
        (omega arith, omega arith, omega arith, refl, omega arith, tt),
      )
