-- ===== src/Connection/Room.antt =====
-- apib/apib_iothread.cc and apib/apib_io_basic.cc: behind each event the connection has a URL of the
-- list and room in its buffer.
use apib.Prelude.{
  ◌≤◌, ◌≡◌, sym, refl, subst, inl, inr, Bool-cases, if-true, if-false, arith, length-append, ◌+◌,
  ◌-◌, ◌<◌, Bool, true, false, not, ◌||◌, ◌==◌, Option, none, some, List, [], ◌∷◌, ◌++◌, Bytes,
  length, drop, if◌then◌else◌, ◌>>=◌,
}
use apib.Status.{StatusOr}
use apib.Url.{UrlInfo, is_same_server}
use apib.Thread.{Counters, record_result, record_read, record_write}
use apib.Connection.{IoStatus, ThreadConf, Parsed, HttpParser, Connection, Answers}
use apib.Connection.Events.{
  read_buf_size, write_done, read_done, record_socket_error, stop_io, go_on, after_write,
  single_write, write_ready, after_parse, after_read, single_read, read_ready,
}
use apib.Connection.Frame.{Kept, Keeps, if-Keeps, bind-Keeps, recycle-Keeps, next_request-Keeps}
use apib.Connection.Writing.{Wrote}
use apib.Connection.Reading.{Got, Consumes, Consumes-room, ReadsFit}

-- a URL of the list, and room in the buffer
abbrev pub Fit : (UrlInfo → Type 0) → UrlInfo → Bytes → Counters → Type 0
Fit S url text stats = S url × (length text < read_buf_size)

module _ {P : Type 0} (http : HttpParser P) (conf : ThreadConf) (a : Answers) (S : UrlInfo → Type 0)
    (listed : S a.next_url) where
  -- of a round of a loop that ends
  abbrev Turn : Option (Bool × Connection P) → Type 0
  Turn none = Unit
  Turn (some p) = Kept (Fit S) p.1

  last-Turn : (o : Option (Connection P)) → Keeps (Fit S) o → Turn (o >>= λ d. some (false, d))
  last-Turn none k = tt
  last-Turn (some d) k = k

  if-Turn :
      (b : Bool) (x y : Option (Bool × Connection P)) → Turn x → Turn y → Turn (if b then x else y)
  if-Turn true x y h k = h
  if-Turn false x y h k = k

  go_on-Keeps :
      (more : Connection P → Option (Connection P)) (o : Option (Bool × Connection P))
      → ((d : Connection P) → o ≡ some (true, d) → Kept (Fit S) d → Keeps (Fit S) (more d))
      → Turn o
      → Keeps (Fit S) (o >>= go_on http conf more)
  go_on-Keeps more none h k = tt
  go_on-Keeps more (some (true, d)) h k = h d refl k
  go_on-Keeps more (some (false, d)) h k = k

  pick-Kept :
      (b : Bool) (c d : Connection P)
      → Kept (Fit S) c
      → Kept (Fit S) d
      → Kept (Fit S) (if b then c else d)
  pick-Kept true c d h k = h
  pick-Kept false c d h k = k

  write_done-Keeps :
      (c : Connection P) (failed : Bool)
      → Kept (Fit S) c
      → Keeps (Fit S) (write_done http conf a failed c)
  unfolding write_done
  write_done-Keeps c true k =
      recycle-Keeps http conf a (Fit S) (record_socket_error http conf c) true k
  write_done-Keeps c false k = if-Keeps (Fit S) c.has_socket _ none k tt

  after_write-Turn :
      (c : Connection P) (w : Wrote) → Kept (Fit S) c → Turn (after_write http conf a c w.0 w.1)
  after_write-Turn c (StatusOr.failed s, n) k =
      last-Turn _ (write_done-Keeps (stop_io http conf c) true k)
  after_write-Turn c (StatusOr.value IoStatus.ok, n) k =
      let d = record c { full_write_pos = c.full_write_pos + n; stats = record_write c.stats n } in
      if-Turn (d.full_write_pos == length d.full_write) _ _
        (last-Turn _ (write_done-Keeps (stop_io http conf d) false k)) k
  after_write-Turn c (StatusOr.value IoStatus.feof, n) k = k
  after_write-Turn c (StatusOr.value IoStatus.need_write, n) k = pick-Kept c.backwards_io _ c k k
  after_write-Turn c (StatusOr.value IoStatus.need_read, n) k = pick-Kept c.backwards_io c _ k k

  pub write_ready-Keeps :
      (ws : List Wrote) (c : Connection P)
      → Kept (Fit S) c
      → Keeps (Fit S) (write_ready http conf a ws c)
  unfolding write_ready single_write
  write_ready-Keeps [] c k = tt
  write_ready-Keeps (w ∷ ws) c k =
      go_on-Keeps (write_ready http conf a ws) _ (λ d e l. write_ready-Keeps ws d l)
        (if-Turn (not c.has_socket || (length c.full_write - c.full_write_pos == 0)) none _ tt
          (after_write-Turn c w k))

  read_done-Keeps :
      (c : Connection P) (failed : Bool)
      → Kept (Fit S) c
      → Keeps (Fit S) (read_done http conf a failed c)
  unfolding read_done
  read_done-Keeps c true k =
      recycle-Keeps http conf a (Fit S) (record_socket_error http conf c) true k
  read_done-Keeps c false k =
      let r = record c {
        stats = record_result c.stats (http.status_code c.parser) (a.now - c.start_time);
      } in
      if-Keeps (Fit S) (not (http.should_keep_alive c.parser)) _ _
        (recycle-Keeps http conf a (Fit S) r true k)
        (bind-Keeps (Fit S) (is_same_server c.url a.next_url conf.index) _
          (λ same. next_request-Keeps http conf a (Fit S) r same (listed, k.1)))

  module _ (consumes : Consumes http) where
    after_parse-Turn :
        (c : Connection P) (text : Bytes) (p : Parsed P)
        → Kept (Fit S) c
        → (p.failed ≡ false → length (drop p.parsed text) < read_buf_size)
        → Turn (after_parse http conf a c text p)
    after_parse-Turn c text p k room =
        let d = record c { parser = p.parser; read_done = c.read_done || p.complete } in
        let u = record d { unparsed = drop p.parsed text } in
        elim (Bool-cases p.failed) [
          | inl bad ↦
              subst Turn (sym (if-true _ _ _ bad))
                (last-Turn _ (read_done-Keeps (stop_io http conf d) true k))
          | inr good ↦ subst Turn (sym (if-false _ _ _ good)) (
              if-Turn u.read_done _ _
                (last-Turn _ (read_done-Keeps (stop_io http conf u) false (k.0, room good)))
                (k.0, room good))
        ]

    after_read-Turn :
        (c : Connection P) (g : Got)
        → Kept (Fit S) c
        → length c.unparsed + length g.1 ≤ read_buf_size
        → Turn (after_read http conf a c g.0 g.1)
    after_read-Turn c (StatusOr.failed s, got) k fits =
        last-Turn _ (read_done-Keeps (stop_io http conf c) true k)
    after_read-Turn c (StatusOr.value IoStatus.ok, got) k fits =
        after_parse-Turn (record c { stats = record_read c.stats (length got) }) (c.unparsed ++ got)
          _ k
          (Consumes-room http consumes c.parser (c.unparsed ++ got)
            (omega (arith, fits, length-append c.unparsed got)))
    after_read-Turn c (StatusOr.value IoStatus.feof, got) k fits =
        last-Turn _ (read_done-Keeps (stop_io http conf c) (not c.read_done) k)
    after_read-Turn c (StatusOr.value IoStatus.need_read, got) k fits =
        pick-Kept c.backwards_io _ c k k
    after_read-Turn c (StatusOr.value IoStatus.need_write, got) k fits =
        pick-Kept c.backwards_io c _ k k

    pub read_ready-Keeps :
        (rs : List Got) (c : Connection P)
        → Kept (Fit S) c
        → ReadsFit http conf a rs c
        → Keeps (Fit S) (read_ready http conf a rs c)
    unfolding read_ready single_read
    read_ready-Keeps [] c k fits = tt
    read_ready-Keeps (g ∷ rs) c k fits =
        go_on-Keeps (read_ready http conf a rs) _ (λ d e l. read_ready-Keeps rs d l (fits.1 d e))
          (if-Turn (not c.has_socket || (read_buf_size - length c.unparsed == 0)) none _ tt
            (after_read-Turn c g k fits.0))
