-- ===== src/Connection/Alive.antt =====
-- apib/apib_iothread.cc: a connection is never forgotten. Between two events it waits for its
-- socket, or for its timer, or it is closed for good.
use apib.Prelude.{
  suc, ◌≡◌, refl, sym, ap, ◌∙◌, subst, Bool, true, false, not, ◌||◌, some, ltb, arith, ◌⊎◌, inl,
  inr, Bool-cases, if-true, if-false, ◌>>=◌,
}
use apib.Status.{is_ok, StatusOr}
use apib.Addresses.{Address, valid}
use apib.Url.{address}
use apib.Connection.{IoStatus, Direction, Handler, ThreadConf, HttpParser, Connection, Answers}
use apib.Connection.Events.{
  connect, connect_and_send, close_done, close, recycle, write_and_send, think_or_send, send_write,
  stop_io, closed, after_close, after_connect,
}
use apib.Connection.Phases.{Idle, Goes, write_request-Written}

still_open : {s n : Bool} → (s ≡ true) ⊎ (n ≡ true) → n ≡ false → s ≡ true
still_open (inl h) e = h
still_open (inr h) e = cc

module _ {P : Type 0} (http : HttpParser P) (conf : ThreadConf) (a : Answers) where
  write_and_send-Goes :
      (c : Connection P) → Idle c → c.has_socket ≡ true → Goes conf (write_and_send http conf a c)
  write_and_send-Goes c i h =
      let w = write_request-Written conf a c i.can_send in
      let sent = record c {
        write_buf = w.buf;
        full_write = w.full;
        full_write_pos = 0;
        write_dirty = w.dirty;
        backwards_io = false;
        io = record {
          handler = Handler.write_ready;
          direction = Direction.for_write;
          active = true;
        };
      } in
      (
        sent,
        if-true c.has_socket _ _ h ∙ ap (λ d. some (send_write http conf d)) w.is,
        inl (record {
          active = refl;
          no_timer = i.no_timer;
          socket = h;
          directed = refl;
          unsent = λ _. w.some_bytes;
          can_send = λ _. w.some_bytes;
          reopens = λ e. cc;
        }),
      )

  after_connect-Goes :
      (c : Connection P) (ok : Bool)
      → Idle c
      → ((ok ≡ true) → c.has_socket ≡ true)
      → c.needs_open ≡ true
      → Goes conf (after_connect http conf a (ok, c))
  after_connect-Goes c true i e n =
      write_and_send-Goes (record c { opened = suc c.opened })
        (record {
          stopped = i.stopped;
          no_timer = i.no_timer;
          socket = i.socket;
          can_send = i.can_send;
        })
        (e refl)
  after_connect-Goes c false i e n = (
    _,
    refl,
    inr (
        inl (record {
          stopped = i.stopped;
          delay = 250;
          timer = refl;
          socket = inr n;
          can_send = i.can_send;
        })),
  )

  abbrev dial : Connection P → Connection P
  dial c = record c { start_time = a.start }

  dial-Idle : (c : Connection P) → Idle c → Idle (dial c)
  dial-Idle c i = record {
    stopped = i.stopped;
    no_timer = i.no_timer;
    socket = i.socket;
    can_send = i.can_send;
  }

  connect-Goes :
      (c : Connection P)
      → Idle c
      → c.needs_open ≡ true
      → (addr : Address) → address c.url conf.index ≡ some addr
      → Goes conf
          (connect http conf a (record c { start_time = a.start }) >>= after_connect http conf a)
  unfolding connect
  connect-Goes c i n addr e = elim (Bool-cases (not (valid addr))) [
    | inl bad ↦ rw (e, bad) (after_connect-Goes (dial c) false (dial-Idle c i) (λ z. cc) n)
    | inr good ↦ elim (Bool-cases (is_ok a.connect)) [
      | inl fine ↦
          rw (e, good, fine)
            (after_connect-Goes (record (dial c) { has_socket = true }) true
              (record {
                stopped = i.stopped;
                no_timer = i.no_timer;
                socket = inl refl;
                can_send = i.can_send;
              })
              (λ _. refl) n)
      | inr refused ↦
          rw (e, good, refused) (after_connect-Goes (dial c) false (dial-Idle c i) (λ z. cc) n)
    ]
  ]

  -- `ConnectAndSend` within an event
  pub connect_and_send-Goes :
      (c : Connection P)
      → Idle c
      → (addr : Address) → address c.url conf.index ≡ some addr
      → Goes conf (connect_and_send http conf a c)
  unfolding connect_and_send
  connect_and_send-Goes c i addr e = elim (Bool-cases c.needs_open) [
    | inl again ↦
        subst (Goes conf) (sym (if-true c.needs_open _ _ again)) (connect-Goes c i again addr e)
    | inr reuse ↦
        subst (Goes conf) (sym (if-false c.needs_open _ _ reuse))
          (write_and_send-Goes (dial c) (dial-Idle c i) (still_open i.socket reuse))
  ]

  -- what an event does behind its own part: nothing waits, and the URL is resolved
  think_or_send-Goes :
      (c : Connection P)
      → Idle c
      → (addr : Address) → address c.url conf.index ≡ some addr
      → Goes conf (think_or_send http conf a c)
  think_or_send-Goes c i addr e = elim (Bool-cases (ltb 0 conf.think_time)) [
    | inl think ↦ rw think (
      _,
      refl,
      inr (
          inl (record {
            stopped = i.stopped;
            delay = conf.think_time;
            timer = refl;
            socket = i.socket;
            can_send = i.can_send;
          })),
    )
    | inr at_once ↦ rw at_once (connect_and_send-Goes c i addr e)
  ]

  pub close_done-Goes :
      (c : Connection P)
      → Idle c
      → c.has_socket ≡ false
      → (addr : Address) → address c.url conf.index ≡ some addr
      → Goes conf (close_done http conf a c)
  unfolding close_done
  close_done-Goes c i s addr e = elim (Bool-cases (not c.keep_running || not conf.keep_running)) [
    | inl over ↦ subst (Goes conf) (sym (if-true _ _ _ over)) (
      c,
      refl,
      inr (
          inr (record {
            stopped = i.stopped;
            no_timer = i.no_timer;
            no_socket = s;
            asked_to_stop = ground arith;
          })),
    )
    | inr more ↦ subst (Goes conf) (sym (if-false _ _ _ more)) (think_or_send-Goes c i addr e)
  ]

  -- the socket is gone, to be opened again
  pub closed-Goes :
      (c : Connection P)
      → Idle c
      → c.needs_open ≡ true
      → (addr : Address) → address c.url conf.index ≡ some addr
      → Goes conf (closed http conf a c)
  closed-Goes c i n addr e =
      close_done-Goes (record c { has_socket = false })
        (record {
          stopped = i.stopped;
          no_timer = i.no_timer;
          socket = inr n;
          can_send = i.can_send;
        })
        refl addr e

  after_close-Goes :
      (c : Connection P) (r : StatusOr IoStatus)
      → Idle c
      → c.has_socket ≡ true
      → c.needs_open ≡ true
      → (addr : Address) → address c.url conf.index ≡ some addr
      → Goes conf (after_close http conf a c r)
  after_close-Goes c (StatusOr.failed s) i h n addr e =
      closed-Goes (stop_io http conf c)
        (record { stopped = refl; no_timer = i.no_timer; socket = i.socket; can_send = i.can_send })
        n addr e
  after_close-Goes c (StatusOr.value IoStatus.ok) i h n addr e = closed-Goes c i n addr e
  after_close-Goes c (StatusOr.value IoStatus.feof) i h n addr e = closed-Goes c i n addr e
  after_close-Goes c (StatusOr.value IoStatus.need_read) i h n addr e = (
    _,
    refl,
    inl (record {
      active = refl;
      no_timer = i.no_timer;
      socket = h;
      directed = refl;
      unsent = λ x. cc;
      can_send = i.can_send;
      reopens = λ _. n;
    }),
  )
  after_close-Goes c (StatusOr.value IoStatus.need_write) i h n addr e = (
    _,
    refl,
    inl (record {
      active = refl;
      no_timer = i.no_timer;
      socket = h;
      directed = refl;
      unsent = λ x. cc;
      can_send = i.can_send;
      reopens = λ _. n;
    }),
  )

  -- `recycle` within an event, whatever it is asked for
  pub recycle-Goes :
      (c : Connection P) (close_conn : Bool)
      → Idle c
      → c.has_socket ≡ true
      → (addr : Address) → address c.url conf.index ≡ some addr
      → Goes conf (recycle http conf a close_conn c)
  unfolding recycle close
  recycle-Goes c close_conn i h addr e =
      elim (Bool-cases (close_conn || (conf.no_keep_alive || not conf.keep_running))) [
        | inl shut ↦ subst (Goes conf) (sym (if-true _ _ _ shut ∙ if-true c.has_socket _ _ h)) (
            after_close-Goes (record c { needs_open = true }) a.close
              (record {
                stopped = i.stopped;
                no_timer = i.no_timer;
                socket = inl h;
                can_send = i.can_send;
              })
              h refl addr e)
        | inr on ↦ subst (Goes conf) (sym (if-false _ _ _ on)) (
            think_or_send-Goes (record c { needs_open = false })
              (record {
                stopped = i.stopped;
                no_timer = i.no_timer;
                socket = inl h;
                can_send = i.can_send;
              })
              addr e)
      ]
