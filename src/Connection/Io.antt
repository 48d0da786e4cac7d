-- ===== src/Connection/Io.antt =====
-- apib/apib_io_basic.cc and the callbacks of apib/apib_iothread.cc: whatever the system answers, an
-- event ends with the connection waiting for the next one.
use apib.Prelude.{
  ◌-◌, ◌≡◌, refl, sym, ap, ◌∙◌, subst, Bool, true, false, not, ◌||◌, none, some, ◌==◌, arith, inl,
  inr, Bool-cases, if◌then◌else◌, if-true, if-false, ◌>>=◌,
}
use apib.Status.{StatusOr}
use apib.Addresses.{Address}
use apib.Url.{address}
use apib.Thread.{record_result}
use apib.Connection.{IoStatus, Direction, Handler, ThreadConf, HttpParser, Connection, Answers}
use apib.Connection.Events.{
  thinking_done, start_connect, write_done, read_done, next_request, stop_io, turn_io, closed,
  record_socket_error, complete_shutdown, after_shutdown_read,
}
use apib.Connection.Phases.{expected, Fresh, Idle, Io, Thinking, Goes, Known}
use apib.Connection.Alive.{connect_and_send-Goes, recycle-Goes, closed-Goes}

module _ {P : Type 0} (http : HttpParser P) (conf : ThreadConf) (a : Answers) where
  -- `StartConnect` of a new connection.
  pub start_connect-Goes :
      (c : Connection P) (addr : Address)
      → Fresh c
      → address a.next_url conf.index ≡ some addr
      → Goes conf (start_connect http conf a c)
  unfolding start_connect
  start_connect-Goes c addr i e =
      connect_and_send-Goes http conf a
        (record c { url = a.next_url; url_id = a.next_id; needs_open = true })
        (record {
          stopped = i.stopped;
          no_timer = i.no_timer;
          socket = inr refl;
          can_send = λ h. let dirty = i.dirty in cc;
        })
        addr e

  -- The timer of a connection that waits for it, with an address of a known family, makes the
  -- connection go on: it waits again, or is closed for good, whether the connection attempt
  -- succeeds or not.
  pub thinking_done-Goes :
      (c : Connection P) (addr : Address)
      → Thinking c
      → address c.url conf.index ≡ some addr
      → Goes conf (thinking_done http conf a c)
  unfolding thinking_done
  thinking_done-Goes c addr t e =
      connect_and_send-Goes http conf a (record c { timer = none })
        (record { stopped = t.stopped; no_timer = refl; socket = t.socket; can_send = t.can_send })
        addr e

  -- WriteDone, failed or not, called while nothing waits and the socket is open, with an address
  -- of a known family, ends with the connection waiting for its socket or its timer, or closed for
  -- good.
  pub write_done-Goes :
      (c : Connection P) (failed : Bool)
      → Idle c
      → c.has_socket ≡ true
      → (addr : Address) → address c.url conf.index ≡ some addr
      → Goes conf (write_done http conf a failed c)
  unfolding write_done
  write_done-Goes c true i h addr e =
      recycle-Goes http conf a (record_socket_error http conf c) true
        (record {
          stopped = i.stopped;
          no_timer = i.no_timer;
          socket = i.socket;
          can_send = i.can_send;
        })
        h addr e
  write_done-Goes c false i h addr e = (
    _,
    if-true _ _ _ h,
    inl (record {
      active = refl;
      no_timer = i.no_timer;
      socket = h;
      directed = refl;
      unsent = λ x. cc;
      can_send = i.can_send;
      reopens = λ x. cc;
    }),
  )

  -- ReadDone, failed or not, called while nothing waits and the socket is open, with addresses of
  -- known families, ends with the connection waiting for its socket or its timer, or closed for
  -- good, whatever the server, the clock and the socket answer.
  pub read_done-Goes :
      (c : Connection P) (failed : Bool)
      → Idle c
      → c.has_socket ≡ true
      → Known conf c.url a.next_url
      → Goes conf (read_done http conf a failed c)
  unfolding read_done
  read_done-Goes c true i h k =
      recycle-Goes http conf a (record_socket_error http conf c) true
        (record {
          stopped = i.stopped;
          no_timer = i.no_timer;
          socket = i.socket;
          can_send = i.can_send;
        })
        h k.old k.old_is
  read_done-Goes c false i h k = elim (Bool-cases (not (http.should_keep_alive c.parser))) [
    | inl last ↦ subst (Goes conf) (sym (if-true _ _ _ last)) (
        recycle-Goes http conf a (recorded c) true
          (record {
            stopped = i.stopped;
            no_timer = i.no_timer;
            socket = i.socket;
            can_send = i.can_send;
          })
          h k.old k.old_is)
    | inr keep ↦
        subst (Goes conf)
          (sym
            (if-false _ _ _ keep ∙ ap (λ o. o >>= next_request http conf a (recorded c)) k.same_is))
          (next-Goes k.same)
  ]
    where
      recorded : Connection P → Connection P
      recorded c = record c {
        stats = record_result c.stats (http.status_code c.parser) (a.now - c.start_time);
      }

      next-Goes : (b : Bool) → Goes conf (next_request http conf a (recorded c) b)
      next-Goes true =
          recycle-Goes http conf a
            (record (recorded c) {
              url = a.next_url;
              url_id = a.next_id;
              write_dirty = c.write_dirty || not (a.next_id == c.url_id);
            })
            false
            (record {
              stopped = i.stopped;
              no_timer = i.no_timer;
              socket = i.socket;
              can_send = λ d. i.can_send (ground arith);
            })
            h k.new k.new_is
      next-Goes false =
          recycle-Goes http conf a
            (record (recorded c) { url = a.next_url; url_id = a.next_id; write_dirty = true }) true
            (record {
              stopped = i.stopped;
              no_timer = i.no_timer;
              socket = i.socket;
              can_send = λ d. cc;
            })
            h k.new k.new_is

  gone :
      (c : Connection P)
      → Io c
      → c.io.handler ≡ Handler.complete_shutdown
      → (addr : Address) → address c.url conf.index ≡ some addr
      → Goes conf (closed http conf a (stop_io http conf c))
  gone c i h addr e =
      closed-Goes http conf a (stop_io http conf c)
        (record {
          stopped = refl;
          no_timer = i.no_timer;
          socket = inl i.socket;
          can_send = i.can_send;
        })
        (i.reopens h) addr e

  -- turned to another direction, or not, by a socket that would block
  turned :
      (c : Connection P) (b : Bool) (d : Direction)
      → Io c
      → d ≡ expected c.io.handler b
      → Io (turn_io http conf d (record c { backwards_io = b }))
  turned c b d i e = record {
    active = refl;
    no_timer = i.no_timer;
    socket = i.socket;
    directed = e;
    unsent = i.unsent;
    can_send = i.can_send;
    reopens = i.reopens;
  }

  pub turned_if :
      (c : Connection P) (b : Bool) (d : Direction)
      → Io c
      → d ≡ expected c.io.handler b
      → Io (if c.backwards_io then turn_io http conf d (record c { backwards_io = b }) else c)
  turned_if c b d i e = elim (Bool-cases c.backwards_io) [
    | inl back ↦ subst Io (sym (if-true _ _ _ back)) (turned c b d i e)
    | inr forth ↦ subst Io (sym (if-false _ _ _ forth)) i
  ]

  pub turned_unless :
      (c : Connection P) (b : Bool) (d : Direction)
      → Io c
      → d ≡ expected c.io.handler b
      → Io (if c.backwards_io then c else turn_io http conf d (record c { backwards_io = b }))
  turned_unless c b d i e = elim (Bool-cases c.backwards_io) [
    | inl back ↦ subst Io (sym (if-true _ _ _ back)) i
    | inr forth ↦ subst Io (sym (if-false _ _ _ forth)) (turned c b d i e)
  ]

  shutdown-Goes :
      (c : Connection P) (r : StatusOr IoStatus)
      → Io c
      → c.io.handler ≡ Handler.complete_shutdown
      → (addr : Address) → address c.url conf.index ≡ some addr
      → Goes conf (after_shutdown_read http conf a c r)
  shutdown-Goes c (StatusOr.failed s) i h addr e = gone c i h addr e
  shutdown-Goes c (StatusOr.value IoStatus.ok) i h addr e = gone c i h addr e
  shutdown-Goes c (StatusOr.value IoStatus.feof) i h addr e = gone c i h addr e
  shutdown-Goes c (StatusOr.value IoStatus.need_read) i h addr e =
      (_, refl, inl (turned_if c false Direction.for_read i (rw h refl)))
  shutdown-Goes c (StatusOr.value IoStatus.need_write) i h addr e =
      (_, refl, inl (turned_unless c true Direction.for_write i (rw h refl)))

  -- completeShutdown, for a connection that waits for the end of a shutdown and has an address of
  -- a known family, ends for every answer of the socket with the connection waiting for its socket
  -- or its timer, or closed for good.
  pub complete_shutdown-Goes :
      (c : Connection P) (r : StatusOr IoStatus)
      → Io c
      → c.io.handler ≡ Handler.complete_shutdown
      → (addr : Address) → address c.url conf.index ≡ some addr
      → Goes conf (complete_shutdown http conf a c r)
  unfolding complete_shutdown
  complete_shutdown-Goes c r i h addr e =
      subst (Goes conf) (sym (if-true _ _ _ i.socket)) (shutdown-Goes c r i h addr e)
