-- ===== src/Url/File.antt =====
-- apib/apib_url.cc, URLInfo::InitFile: the URLs of a file are those of its lines, in order, up to
-- the first that is refused; what stands behind the last newline is not a line.
use apib.Prelude.{
  ℕ, zero, suc, ◌-◌, ◌≤◌, ◌≡◌, refl, sym, ◌∙◌, Bool, true, false, Option, some, List, [], ◌∷◌, ◌++◌,
  Bytes, length, take, arith, subst, drop-all,
}
use apib.Status.{Status, ok_status, StatusOr}
use apib.Lines.{LineState, of_size, consume, read_stream}
use apib.Lines.View.{View}
use apib.Lines.Stream.{each_line, each_line-Took, Took}
use apib.Lines.Stream.Spec.{lines}
use apib.Lines.Stream.Drain.{
  NoNul, Waiting, of_size-Waiting, each_line-lines, read_stream-View, read_stream-mode,
}
use apib.Lines.Stream.Chunks.{taken-all}
use apib.Url.{
  Outside, UrlInfo, Urls, LoopEnd, init, url_lines, url_file_loop, init_file, url_buf_len,
  empty_urls, take_url, take_init, after_read, after_lines,
}

abbrev pub end_with : (List UrlInfo → LoopEnd) → List UrlInfo → StatusOr UrlInfo → LoopEnd
end_with more urls (StatusOr.failed st) = LoopEnd.returned st urls
end_with more urls (StatusOr.value url) = more (urls ++ (url ∷ []))

-- how the loop over these lines ends
abbrev pub end_of : Outside → List Bytes → LineState → List UrlInfo → LoopEnd
end_of o [] s urls = LoopEnd.through urls s
end_of o (l ∷ ls) s urls = end_with (end_of o ls s) urls (init o l)

abbrev pub Ends : Outside → ℕ → Type 0
Ends o k =
    (t : LineState) (us : List UrlInfo) (ls : List Bytes) (s' : LineState)
    → each_line k t ≡ some (ls, s')
    → url_lines o k t us ≡ some (end_of o ls s' us)

take_init-Ends :
    (o : Outside) (k : ℕ) (t s' : LineState) (us : List UrlInfo) (ls : List Bytes)
    → Ends o k
    → each_line k t ≡ some (ls, s')
    → (r : StatusOr UrlInfo)
    → take_init (url_lines o k) t us r ≡ some (end_with (end_of o ls s') us r)
take_init-Ends o k t s' us ls ih f (StatusOr.failed st) = refl
take_init-Ends o k t s' us ls ih f (StatusOr.value url) = ih t (us ++ (url ∷ [])) ls s' f

take_url-Ends :
    (o : Outside) (k : ℕ) (us : List UrlInfo) (ls : List Bytes) (s' : LineState)
    → Ends o k
    → (p : Bool × LineState) → Took (each_line k) p ls s'
    → take_url o (url_lines o k) us p ≡ some (end_of o ls s' us)
take_url-Ends o k us ls s' ih (false, t) (e, f) = rw (e, f)
take_url-Ends o k us ls s' ih (true, t) (l, rest, e, f, g) =
    rw (e, g) (take_init-Ends o k t s' us rest ih f (init o l))

-- The loop over the lines of the buffer ends as `end_of` says of the lines that it takes.
pub url_lines-each_line : (o : Outside) (k : ℕ) → Ends o k
unfolding url_lines
url_lines-each_line o zero s urls ls s' h = unfold each_line in cc
url_lines-each_line o (suc k) s urls ls s' h =
    let (p, n, t) = each_line-Took k s ls s' h in
    rw n (take_url-Ends o k urls ls s' (url_lines-each_line o k) p t)

abbrev pub added_with :
    (List UrlInfo → Status × Urls) → List UrlInfo → StatusOr UrlInfo → Status × Urls
added_with more urls (StatusOr.failed st) = (st, record { urls = urls; initialized = false })
added_with more urls (StatusOr.value url) = more (urls ++ (url ∷ []))

-- The URLs of these lines behind `urls`, up to the first line that is refused, whose error is given.
abbrev pub added : Outside → List Bytes → List UrlInfo → Status × Urls
added o [] urls = (ok_status, record { urls = urls; initialized = true })
added o (l ∷ ls) urls = added_with (added o ls) urls (init o l)

abbrev pub AtEnd :
    (LineState → Bytes → List UrlInfo → Option (Status × Urls)) → Bytes → LineState → Type 0
AtEnd more input s' =
    (us : List UrlInfo)
    → after_read (λ t rest. more t rest us) us (read_stream (consume s').1 input)
      ≡ some (ok_status, record { urls = us; initialized = true })

after_lines-with :
    (o : Outside) (more : LineState → Bytes → List UrlInfo → Option (Status × Urls)) (input : Bytes)
    (s' : LineState) (ls : List Bytes)
    → ((us : List UrlInfo) → after_lines more input (end_of o ls s' us) ≡ some (added o ls us))
    → (us : List UrlInfo) (r : StatusOr UrlInfo)
    → after_lines more input (end_with (end_of o ls s') us r) ≡ some (added_with (added o ls) us r)
after_lines-with o more input s' ls ih us (StatusOr.failed st) = refl
after_lines-with o more input s' ls ih us (StatusOr.value url) = ih (us ++ (url ∷ []))

after_lines-added :
    (o : Outside) (more : LineState → Bytes → List UrlInfo → Option (Status × Urls)) (input : Bytes)
    (s' : LineState) (ls : List Bytes)
    → AtEnd more input s'
    → (us : List UrlInfo) → after_lines more input (end_of o ls s' us) ≡ some (added o ls us)
after_lines-added o more input s' [] h us = h us
after_lines-added o more input s' (l ∷ ls) h us =
    after_lines-with o more input s' ls (after_lines-added o more input s' ls h) us (init o l)

pub take_nil : (n : ℕ) → take {A = ℕ} n [] ≡ []
take_nil zero = refl
take_nil (suc n) = refl

pub AtEnd-nothing :
    (more : LineState → Bytes → List UrlInfo → Option (Status × Urls)) (s' : LineState)
    → AtEnd more [] s'
unfolding read_stream
AtEnd-nothing more s' us = rw (take_nil ((consume s').1.buf_size - (consume s').1.buf_len))

-- one filled buffer, with all of a small file in it
first_round :
    (memory content : Bytes)
    → length memory ≡ url_buf_len
    → length content ≤ url_buf_len
    → NoNul content
    → let s₁ = (read_stream (of_size memory url_buf_len) content).1 in
      (q : LineState) × (each_line (suc s₁.buf_len) s₁ ≡ some ((lines content).0, q))
first_round memory content m fits z =
    let w = subst (λ n. Waiting (of_size memory n) n []) m (of_size-Waiting memory) in
    let t = taken-all url_buf_len [] content (omega arith) in
    let (slack, v) = read_stream-View (of_size memory url_buf_len) url_buf_len [] content w in
    let s₁ = (read_stream (of_size memory url_buf_len) content).1 in
    let v' = subst (λ x. View s₁ [] x slack) t v in
    let (q, e, p) =
      each_line-lines (suc s₁.buf_len) s₁ [] content slack v' z
        (read_stream-mode (of_size memory url_buf_len) content ∙ w.mode)
        (omega (arith, v'.filled)) in
    (q, e)

read_stream-nothing_left :
    (memory content : Bytes)
    → length content ≤ url_buf_len
    → (read_stream (of_size memory url_buf_len) content).2 ≡ []
unfolding read_stream of_size
read_stream-nothing_left memory content h = drop-all url_buf_len content h

-- InitFile, into an empty list and with a buffer of its size, of a file that fits into that buffer
-- and has no NULs, adds the URLs of its lines in order, up to the first line that init refuses,
-- whose error it gives; bytes behind the last newline are no line.
init_file-lines :
    (o : Outside) (memory name content : Bytes)
    → length memory ≡ url_buf_len
    → length content ≤ url_buf_len
    → NoNul content
    → init_file o empty_urls memory name (some content) ≡ some (added o (lines content).0 [])
unfolding init_file url_file_loop
init_file-lines o memory name content m fits z =
    let (q, e) = first_round memory content m fits z in
    let s₁ = (read_stream (of_size memory url_buf_len) content).1 in
    let more = url_file_loop o (length content) in
    rw (url_lines-each_line o (suc s₁.buf_len) s₁ [] (lines content).0 q e) (
      after_lines-added o more (read_stream (of_size memory url_buf_len) content).2 q
        (lines content).0
        (subst (λ r. AtEnd more r q) (sym (read_stream-nothing_left memory content fits))
          (AtEnd-nothing more q))
        [])
