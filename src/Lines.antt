-- ===== src/Lines.antt =====
-- apib/apib_lines.h and apib/apib_lines.cc: `LineState`, a buffer that is cut into lines and tokens
-- in place. `buf` is the whole allocation behind `buf_`, so its length is the number of bytes that
-- may be touched; an answer `none` is a read outside it. The fields of type `int` are natural
-- numbers; only `read_fd` can make one negative, and its pattern modulo 2 ^ 32 is kept there.
pub mod View
pub mod Next
pub mod Stream
pub mod Http
pub mod Tokens
pub mod Words
pub mod NextWord
pub mod Frame
mod Tests
use apib.Prelude.{
  ℕ, zero, suc, ◌+◌, ◌-◌, ◌%◌, ◌^◌, Bool, true, false, not, ◌&&◌, ◌||◌, Option, none, some, List,
  [], ◌∷◌, ◌++◌, Bytes, codes, length, get_elem?, get_or, set, take, drop, min, leb, ltb, ◌==◌,
  if◌then◌else◌, ◌>>=◌,
}

pub record LineState : Type 0 where
  pub http_mode : Bool
  pub buf : Bytes
  pub buf_len : ℕ
  pub buf_size : ℕ
  pub line_start : ℕ
  pub line_end : ℕ
  pub line_complete : Bool
  pub tok_start : ℕ
  pub tok_end : ℕ

-- isChar(c, match)
unfoldable pub is_char : ℕ → Bytes → Bool
is_char c [] = false
is_char c (m ∷ ms) = c == m || is_char c ms

abbrev pub newlines : Bytes
newlines = b'\r' ∷ b'\n' ∷ []

-- LineState(char* line, int size, int len); the allocation has `size` bytes.
unfoldable pub of_buffer : Bytes → ℕ → ℕ → LineState
of_buffer line size len = record {
  http_mode = false;
  buf = line;
  buf_len = len;
  buf_size = size;
  line_start = 0;
  line_end = 0;
  line_complete = false;
  tok_start = 0;
  tok_end = 0;
}

-- LineState(const std::string& s)
unfoldable pub of_string : Bytes → LineState
unfolding of_buffer
of_string s = of_buffer s (length s) (length s)

-- LineState(size_t len); `memory` is what malloc(len) returned, with any content.
unfoldable pub of_size : Bytes → ℕ → LineState
unfolding of_buffer
of_size memory len = of_buffer memory len 0

unfoldable pub clear : LineState → LineState
clear s = record s {
  buf_len = 0;
  line_start = 0;
  line_end = 0;
  line_complete = false;
  tok_start = 0;
  tok_end = 0;
}

unfoldable pub set_http_mode : LineState → Bool → LineState
set_http_mode s on = record s { http_mode = on }

unfoldable pub null_last : LineState → LineState
null_last s = record s { buf = set s.buf s.line_end 0; line_end = s.line_end + 1 }

-- `while ((i < end) && keep(buf_[i])) i++;` with `rounds` = end - i.
unfoldable pub advance : (ℕ → Bool) → ℕ → Bytes → ℕ → ℕ
advance keep zero buf i = i
advance keep (suc rounds) buf i =
    let rest = advance keep rounds buf (i + 1) in if keep (get_or buf i 0) then rest else i

-- the loop that overwrites newlines, with `rounds` = bufLen_ - lineEnd_
unfoldable pub null_newlines : ℕ → LineState → LineState
unfolding null_last is_char
null_newlines zero s = s
null_newlines (suc rounds) s =
    let rest = null_newlines rounds (null_last s) in
    if is_char (get_or s.buf s.line_end 0) newlines then rest else s

-- the first statement of `next`
unfoldable pub begin_line : LineState → LineState
begin_line s = if ltb 0 s.line_end then record s { line_start = s.line_end } else s

-- the newline in HTTP mode; the byte behind a '\r' is read with no test of its position
unfoldable pub end_http_line : LineState → Option LineState
unfolding null_last
end_http_line s =
    if get_or s.buf s.line_end 0 == b'\r'
    then (let s' = null_last s in
        get_elem? s'.buf s'.line_end >>= λ c. some (if c == b'\n' then null_last s' else s'))
    else some (null_last s)

unfoldable pub end_line : LineState → Option LineState
end_line s =
    if s.http_mode then end_http_line s else some (null_newlines (s.buf_len - s.line_end) s)

unfoldable pub incomplete : LineState → Option (Bool × LineState)
incomplete s = some (false, record s { line_complete = false })

unfoldable pub complete : LineState → Bool × LineState
complete s =
    (true, record s { tok_start = s.line_start; tok_end = s.line_start; line_complete = true })

unfoldable pub to_newline : LineState → LineState
to_newline s = record s {
  line_end = advance (λ c. not (is_char c newlines)) (s.buf_len - s.line_end) s.buf s.line_end;
}

unfoldable pub next : LineState → Option (Bool × LineState)
next s =
    let s₀ = begin_line s in
    let s₁ = to_newline s₀ in
    if leb s₀.buf_len s₀.line_end
    then incomplete s₀
    else if leb s₁.buf_len s₁.line_end
    then incomplete s₁
    else (end_line s₁ >>= λ s₂. some (complete s₂))

-- A C string: the bytes up to the first NUL of the allocation.
unfoldable pub c_string : Bytes → Option Bytes
c_string [] = none
c_string (c ∷ cs) =
    let rest = c_string cs in if c == 0 then some [] else (rest >>= λ t. some (c ∷ t))

-- line() and c_line()
unfoldable pub line : LineState → Option Bytes
line s = if not s.line_complete then some [] else c_string (drop s.line_start s.buf)

-- `while ((i < end) && isChar(buf_[i], toks)) { buf_[i] = 0; i++; }` with `rounds` = end - i
unfoldable pub null_run : Bytes → ℕ → Bytes → ℕ → Bytes × ℕ
null_run toks zero buf i = (buf, i)
null_run toks (suc rounds) buf i =
    let rest = null_run toks rounds (set buf i 0) (i + 1) in
    if is_char (get_or buf i 0) toks then rest else (buf, i)

-- the two loops of `nextToken`
unfoldable pub scan_token : Bytes → LineState → LineState
scan_token [] s = s
scan_token (t ∷ ts) s =
    let toks = t ∷ ts in
    let i = advance (λ c. not (is_char c toks)) (s.line_end - s.tok_end) s.buf s.tok_end in
    let (b, j) = null_run toks (s.line_end - i) s.buf i in record s { buf = b; tok_end = j }

unfoldable pub next_token : LineState → Bytes → Option (Bytes × LineState)
next_token s toks =
    if not s.line_complete
    then some ([], s)
    else if leb s.line_end s.tok_end
    then some ([], s)
    else (let s' = scan_token toks (record s { tok_start = s.tok_end }) in
        c_string (drop s'.tok_start s'.buf) >>= λ t. some (t, s'))

unfoldable pub skip_matches : LineState → Bytes → LineState
unfolding advance is_char
skip_matches s toks = record s {
  tok_end = advance (λ c. is_char c toks) (s.line_end - s.tok_end) s.buf s.tok_end;
}

unfoldable pub skip : LineState → ℕ → LineState
skip s to_skip = record s { line_start = s.line_start + to_skip; line_end = s.line_end + to_skip }

-- memcpy(buf + i, chunk, chunk.size()), inside the allocation
abbrev pub write_at : Bytes → ℕ → Bytes → Bytes
write_at buf i chunk = take i buf ++ (chunk ++ drop (i + length chunk) buf)

-- the bytes from lineStart_ up to bufLen_, if there is no complete line
unfoldable pub remaining : LineState → Bytes
remaining s =
    if not s.line_complete then take (s.buf_len - s.line_start) (drop s.line_start s.buf) else []

unfoldable pub consume : LineState → Bool × LineState
unfolding remaining
consume s =
    let rest = remaining s in
    (
      ltb (length rest) s.buf_size,
      record s {
        buf = write_at s.buf 0 rest;
        buf_len = length rest;
        line_start = 0;
        line_end = 0;
        line_complete = false;
      },
    )

-- readStream(in); `input` is what the stream still holds, and what is left of it is returned.
unfoldable pub read_stream : LineState → Bytes → ℕ × LineState × Bytes
read_stream s input =
    let chunk = take (s.buf_size - s.buf_len) input in
    (
      length chunk,
      record s { buf = write_at s.buf s.buf_len chunk; buf_len = s.buf_len + length chunk },
      drop (s.buf_size - s.buf_len) input,
    )

-- What read(2) answers: -1, or the bytes that it put into the buffer (none at the end of file).
pub data ReadResult : Type 0 where
  failed : ReadResult
  received : Bytes → ReadResult

-- readFd(fd). `r` is a size_t, so that -1 is 2 ^ 64 - 1 and passes the test `r <= 0`; the answer is
-- the `int` made of it, as its pattern modulo 2 ^ 32.
unfoldable pub read_fd : LineState → ReadResult → ℕ × LineState
read_fd s failed =
    let r = 2 ^ 64 - 1 in (r % 2 ^ 32, record s { buf_len = (s.buf_len + r) % 2 ^ 32 })
read_fd s (received []) = (0, s)
read_fd s (received (c ∷ cs)) =
    let chunk = c ∷ cs in
    (
      length chunk,
      record s { buf = write_at s.buf s.buf_len chunk; buf_len = s.buf_len + length chunk },
    )

-- getReadInfo: where to write, and how much
unfoldable pub get_read_info : LineState → ℕ × ℕ
get_read_info s = (s.buf_len, s.buf_size - s.buf_len)

unfoldable pub set_read_length : LineState → ℕ → LineState
set_read_length s len = record s { buf_len = s.buf_len + len }

unfoldable pub data_remaining : LineState → ℕ
data_remaining s = s.buf_len - s.line_end

unfoldable pub write_remaining : LineState → Bytes
write_remaining s = take (s.buf_len - s.line_end) (drop s.line_end s.buf)
