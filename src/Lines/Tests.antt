-- ===== src/Lines/Tests.antt =====
-- Runs of the line buffer on small inputs, and the theorems at concrete states.
use apib.Prelude.{
  ◌≡◌, ◌↔◌, refl, true, false, Option, some, none, Bytes, codes, List, [], ◌∷◌, ◌++◌, ◌>>=◌, arith,
  length, replicate, All, All-none, ◌==◌,
}
use apib.Lines.{
  LineState, of_string, of_size, next, line, is_char, newlines, complete, advance, begin_line,
  to_newline, end_line, end_http_line, null_newlines, null_last, incomplete, c_string, of_buffer,
}
use apib.Lines.View.{View, IsPlain}
use apib.Lines.Http.{next-cr_fault}
use apib.Lines.Tokens.{OnLine}
use apib.Lines.Stream.Spec.{lines, starts_newline}
use apib.Lines.Stream.Drain.{Waiting, of_size-Waiting}
use apib.Lines.Stream.Chunks.{BlankFirst, receive_all, receive_all-lines, receive_all-seam}

abbrev second_line : LineState → Option Bytes
second_line s = next s >>= λ p. next p.1 >>= λ q. line q.1

second_line_run : second_line (of_string (codes "ab\r\ncd\n")) ≡ some (codes "cd")
unfolding of_string of_buffer next line is_char advance begin_line to_newline end_line end_http_line
    null_newlines null_last incomplete complete c_string
second_line_run = refl

receive_all-lines_example :
    let text = [] ++ (codes "ab\r\nc" ++ (codes "d\nef" ++ [])) in
    let spec = lines text in
    (s' : LineState) × (receive_all
        (of_size (replicate 16 0) 16)
        (codes "ab\r\nc" ∷ codes "d\nef" ∷ [])
      ≡ some (spec.0, s'))
    × Waiting s' 16 spec.1
    × BlankFirst (starts_newline text) spec.0
unfolding lines is_char
receive_all-lines_example =
    receive_all-lines (codes "ab\r\nc" ∷ codes "d\nef" ∷ []) (of_size (replicate 16 0) 16) 16 []
      (of_size-Waiting (replicate 16 0)) tt (All-none (λ c. c == 0) (codes "ab\r\ncd\nef") refl)
      (omega arith, refl, (omega arith, refl, tt))

receive_all-seam_example :
    (t : List Bytes) × (s' : LineState) × (receive_all
        (of_size (replicate 16 0) 16)
        (codes "ab\r" ∷ codes "\ncd\n" ∷ [])
      ≡ some ((lines (codes "ab\r")).0 ++ ([] ∷ t), s'))
    × ((lines (codes "ab\r" ++ codes "\ncd\n")).0 ≡ (lines (codes "ab\r")).0 ++ t)
unfolding is_char
receive_all-seam_example =
    receive_all-seam (codes "ab\r") b'\n' (codes "cd\n") (of_size (replicate 16 0) 16) 16
      (of_size-Waiting (replicate 16 0)) (All-none (λ c. c == 0) (codes "ab\r") refl)
      (All-none (λ c. c == 0) (codes "\ncd\n") refl) (omega arith) (omega arith) refl refl

-- "x: 1" and a CR read into a buffer in HTTP mode, with `slack` behind it
abbrev http : Bytes → LineState
http slack = record {
  http_mode = true;
  buf = codes "x: 1\r" ++ slack;
  buf_len = 5;
  buf_size = length (codes "x: 1\r" ++ slack);
  line_start = 0;
  line_end = 0;
  line_complete = false;
  tok_start = 0;
  tok_end = 0;
}

http-View : (slack : Bytes) → View (http slack) [] (codes "x: 1" ++ (b'\r' ∷ [])) slack
http-View slack = record {
  contents = refl;
  at = refl;
  filled = refl;
  started = omega arith;
  sized = refl;
}

plain : All IsPlain (codes "x: 1")
unfolding is_char
plain = All-none (λ c. is_char c newlines) (codes "x: 1") refl

next-cr_fault_example : (next (http []) ≡ none) ↔ (◌≡◌ {A = Bytes} [] [] × ◌≡◌ {A = Bytes} [] [])
next-cr_fault_example = next-cr_fault (http []) [] (codes "x: 1") [] [] (http-View []) plain refl

-- a line "GET  /" and its NUL
abbrev header : LineState
header = record {
  http_mode = false;
  buf = codes "GET  /" ++ (0 ∷ []);
  buf_len = 7;
  buf_size = 7;
  line_start = 0;
  line_end = 6;
  line_complete = true;
  tok_start = 0;
  tok_end = 0;
}

header-OnLine : OnLine header [] (codes "GET" ++ (codes "  " ++ codes "/")) (0 ∷ [])
header-OnLine = record { contents = refl; at = refl; ends = refl; whole = refl }
