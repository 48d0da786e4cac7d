-- ===== src/Url/LongFile.antt =====
-- apib/apib_url.cc, URLInfo::InitFile of a file of any length: the buffer is filled several times, and
-- no line is lost, cut or read twice at the seams.
use apib.Prelude.{
  ℕ, zero, suc, ◌-◌, ◌<◌, ◌≡◌, refl, sym, ap, ◌∙◌, Bool, true, false, ◌&&◌, ◌||◌, Bool-cases, inl,
  inr, Option, some, List, [], ◌∷◌, ◌++◌, append_assoc, append-nil, Bytes, length, drop,
  take-append-drop, length-drop, All, All-append, arith, subst, ◌==◌,
}
use apib.Status.{Status, ok_status, StatusOr}
use apib.Lines.{LineState, of_size, consume, read_stream, is_char, newlines}
use apib.Lines.View.{IsPlain}
use apib.Lines.Stream.Spec.{lines, lines-plain, lines-append, starts_newline, ends_newline, push}
use apib.Lines.Stream.Drain.{NoNul, NoNul-append, Waiting, of_size-Waiting, filled_once, taken}
use apib.Lines.Stream.Chunks.{rest-IsPlain, rest-All}
use apib.Lines.Stream.Short.{
  AreShort, first-AreShort, length-first, AreShort-seam, read_stream-parts, length-taken,
}
use apib.Url.{
  Outside, UrlInfo, Urls, init, url_file_loop, init_file, url_buf_len, empty_urls, after_read,
  after_lines,
}
use apib.Url.File.{end_with, end_of, url_lines-each_line, added_with, added, take_nil}

-- no two newlines stand side by side
abbrev pub NoRuns : Bytes → Type 0
NoRuns [] = Unit
NoRuns (c ∷ cs) = ((is_char c newlines && starts_newline cs) ≡ false) × NoRuns cs

-- a run of newlines, as a test
abbrev pub has_run : Bytes → Bool
has_run [] = false
has_run (c ∷ cs) = (is_char c newlines && starts_newline cs) || has_run cs

pub has_run-NoRuns : (xs : Bytes) → has_run xs ≡ false → NoRuns xs
has_run-NoRuns [] h = tt
has_run-NoRuns (c ∷ cs) h = (ground arith, has_run-NoRuns cs (ground arith))

seam-NoRuns : (xs ys : Bytes) → NoRuns (xs ++ ys) → (ends_newline xs && starts_newline ys) ≡ false
seam-NoRuns [] ys h = refl
seam-NoRuns (c ∷ []) ys h = h.0
seam-NoRuns (c ∷ d ∷ cs) ys h = seam-NoRuns (d ∷ cs) ys h.1

push-NoRuns :
    (c : ℕ) (a : List Bytes × Bytes) (ys : Bytes)
    → IsPlain c
    → NoRuns (a.1 ++ ys)
    → NoRuns ((push c a).1 ++ ys)
push-NoRuns c ([], rest) ys p h = (rw p refl, h)
push-NoRuns c (l ∷ ls, rest) ys p h = h

-- what waits behind the lines of a part
rest-NoRuns : (xs ys : Bytes) → NoRuns (xs ++ ys) → NoRuns ((lines xs).1 ++ ys)
unfolding lines
rest-NoRuns [] ys h = h
rest-NoRuns (c ∷ cs) ys h =
    let ih = rest-NoRuns cs ys h.1 in
    elim (Bool-cases (is_char c newlines)) [
      | inl end ↦ elim (Bool-cases (starts_newline cs)) [
        | inl run ↦ rw (end, run) ih
        | inr stop ↦ rw (end, stop) ih
      ]
      | inr plain ↦ rw plain (push-NoRuns c (lines cs) ys plain ih)
    ]

abbrev More : Type 0
More = LineState → Bytes → List UrlInfo → Option (Status × Urls)

-- The lines of one buffer, and then what the next reads add.
after_lines-added :
    (o : Outside) (more : More) (left : Bytes) (q : LineState) (later : List Bytes)
    → ((us : List UrlInfo)
        → after_read (λ t rest. more t rest us) us (read_stream (consume q).1 left)
          ≡ some (added o later us))
    → (ls : List Bytes) (us : List UrlInfo)
    → after_lines more left (end_of o ls q us) ≡ some (added o (ls ++ later) us)
after_lines-added o more left q later h [] us = h us
after_lines-added o more left q later h (l ∷ ls) us =
    taken_url (init o l) (λ us'. after_lines-added o more left q later h ls us')
  where
    taken_url :
        (r : StatusOr UrlInfo)
        → ((us' : List UrlInfo)
            → after_lines more left (end_of o ls q us') ≡ some (added o (ls ++ later) us'))
        → after_lines more left (end_with (end_of o ls q) us r)
          ≡ some (added_with (added o (ls ++ later)) us r)
    taken_url (StatusOr.failed st) ih = refl
    taken_url (StatusOr.value url) ih = ih (us ++ (url ∷ []))

after_read-goes :
    (more : LineState → Bytes → Option (Status × Urls)) (us : List UrlInfo)
    (p : ℕ × LineState × Bytes)
    → 0 < p.0
    → after_read more us p ≡ more p.1 p.2
after_read-goes more us (zero, s, rest) h = absurd (omega arith)
after_read-goes more us (suc n, s, rest) h = refl

after_read-ended :
    (more : LineState → Bytes → List UrlInfo → Option (Status × Urls)) (s : LineState)
    (us : List UrlInfo)
    → after_read (λ t r. more t r us) us (read_stream s [])
      ≡ some (ok_status, record { urls = us; initialized = true })
unfolding read_stream
after_read-ended more s us = rw (take_nil (s.buf_size - s.buf_len)) refl

-- the reads behind one buffer
after_read-added :
    (o : Outside) (k : ℕ) (s : LineState) (size : ℕ) (rest left : Bytes) (us : List UrlInfo)
    → Waiting s size rest
    → All IsPlain rest
    → AreShort size (lines (rest ++ left))
    → (0 < length left
        → url_file_loop o k (read_stream s left).1 (read_stream s left).2 us
          ≡ some (added o (lines (rest ++ left)).0 us))
    → after_read (λ t r. url_file_loop o k t r us) us (read_stream s left)
      ≡ some (added o (lines (rest ++ left)).0 us)
after_read-added o k s size rest [] us w p h ih =
    let e = ap lines (append-nil rest) ∙ lines-plain rest p in
    after_read-ended (url_file_loop o k) s us ∙ sym (ap (λ a. some (added o a.0 us)) e)
after_read-added o k s size rest (i ∷ is) us w p h ih =
    let room : length rest < size =
      omega
        (arith, length-first rest (i ∷ is) p, first-AreShort size (lines (rest ++ (i ∷ is))) h) in
    let (rc, _) = read_stream-parts s size rest (i ∷ is) w in
    let (some_byte, _) = length-taken size rest i is room in
    after_read-goes (λ t r. url_file_loop o k t r us) us (read_stream s (i ∷ is))
      (omega (arith, rc, some_byte))
    ∙ ih (omega arith)

-- What is left of an input is less than the input, or nothing.
length-left :
    (size : ℕ) (rest input : Bytes)
    → All IsPlain rest
    → AreShort size (lines (rest ++ input))
    → 0 < length (drop (size - length rest) input)
    → length (drop (size - length rest) input) < length input
length-left size rest input p h pos = omega (
  arith,
  length-first rest input p,
  first-AreShort size (lines (rest ++ input)) h,
  length-drop (size - length rest) input,
)

-- The loop, from a buffer that was filled out of `input` behind what waited.
url_file_loop-added :
    (o : Outside) (k : ℕ) (s : LineState) (size : ℕ) (rest input : Bytes) (us : List UrlInfo)
    → Waiting s size rest
    → All IsPlain rest
    → NoNul (rest ++ input)
    → AreShort size (lines (rest ++ input))
    → NoRuns (rest ++ input)
    → length input < k
    → url_file_loop o k (read_stream s input).1 (read_stream s input).2 us
      ≡ some (added o (lines (rest ++ input)).0 us)
unfolding url_file_loop
url_file_loop-added o zero s size rest input us w p z h r m = absurd (omega arith)
url_file_loop-added o (suc k) s size rest input us w p z h r m =
    let c = taken size rest input in
    let left = drop (size - length rest) input in
    let regroup : (rest ++ c) ++ left ≡ rest ++ input =
      append_assoc rest c left ∙ ap (◌++◌ rest) (take-append-drop (size - length rest) input) in
    let z' = NoNul-append (rest ++ c) left (subst NoNul (sym regroup) z) in
    let r' = subst NoRuns (sym regroup) r in
    let (q, e, _, w') = filled_once s size rest input w z'.0 in
    let (rc, behind) = read_stream-parts s size rest input w in
    let t = (read_stream s input).1 in
    let spec = lines (rest ++ c) in
    let (_, h') =
      AreShort-seam size (rest ++ c) left (subst (λ x. AreShort size (lines x)) (sym regroup) h) in
    let plain = rest-IsPlain (rest ++ c) in
    let nul =
      All-append (λ c. (c == 0) ≡ false) spec.1 left
        (rest-All (λ c. (c == 0) ≡ false) (rest ++ c) z'.0) z'.1 in
    let whole =
      ap lines (sym regroup) ∙ lines-append (rest ++ c) left (seam-NoRuns (rest ++ c) left r') in
    let next : (us : List UrlInfo)
        → after_read (λ t r. url_file_loop o k t r us) us (read_stream (consume q).1 left)
          ≡ some (added o (lines (spec.1 ++ left)).0 us) =
      λ us. after_read-added o k (consume q).1 size spec.1 left us w' plain h' λ pos.
        url_file_loop-added o k (consume q).1 size spec.1 left us w' plain nul h'
          (rest-NoRuns (rest ++ c) left r') (omega (arith, length-left size rest input p h pos)) in
    rw (url_lines-each_line o (suc t.buf_len) t us spec.0 q e, behind, whole)
      (after_lines-added o (url_file_loop o k) left q (lines (spec.1 ++ left)).0 next spec.0 us)

-- InitFile, into an empty list and with a buffer of its size, of a file of any length without
-- NULs, whose lines are each shorter than the buffer and in which no two newlines stand side by
-- side, ends and adds the URLs of its lines in order, up to the first line that init refuses,
-- whose error it gives; bytes behind the last newline are no line.
pub init_file-all_lines :
    (o : Outside) (memory name content : Bytes)
    → length memory ≡ url_buf_len
    → NoNul content
    → NoRuns content
    → AreShort url_buf_len (lines content)
    → init_file o empty_urls memory name (some content) ≡ some (added o (lines content).0 [])
unfolding init_file
init_file-all_lines o memory name content m z r h =
    let w = subst (λ n. Waiting (of_size memory n) n []) m (of_size-Waiting memory) in
    url_file_loop-added o (suc (length content)) (of_size memory url_buf_len) url_buf_len [] content
      [] w tt z h r (omega arith)
