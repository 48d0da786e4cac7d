-- ===== src/Connection/Frame.antt =====
-- apib/apib_iothread.cc: what no part of an event touches but by the URL that it takes. A condition
-- on the URL, on what is left unparsed and on the counters lasts through recycle and what it calls.
use apib.Prelude.{
  Bool, true, false, not, ◌&&◌, ◌||◌, ◌==◌, Option, none, some, ltb, inl, inr, Bool-cases,
  Option-cases, if◌then◌else◌, ◌>>=◌, Bytes,
}
use apib.Status.{StatusOr, is_ok}
use apib.Addresses.{valid}
use apib.Url.{UrlInfo, address}
use apib.Thread.{Counters}
use apib.Connection.{IoStatus, ThreadConf, HttpParser, Connection, Answers, write_request}
use apib.Connection.Events.{
  connect, connect_and_send, close_done, close, recycle, start_connect, thinking_done,
  complete_shutdown, write_and_send, think_or_send, after_close, after_connect, next_request,
  closed, stop_io, after_shutdown_read,
}

module _ {P : Type 0} (Q : UrlInfo → Bytes → Counters → Type 0) where
  abbrev pub Kept : Connection P → Type 0
  Kept c = Q c.url c.unparsed c.stats

  -- of an event that ends
  abbrev pub Keeps : Option (Connection P) → Type 0
  Keeps none = Unit
  Keeps (some d) = Kept d

  pub bind-Keeps :
      {X : Type 0} (o : Option X) (f : X → Option (Connection P))
      → ((x : X) → Keeps (f x))
      → Keeps (o >>= f)
  bind-Keeps none f h = tt
  bind-Keeps (some x) f h = h x

  pub if-Keeps :
      (b : Bool) (x y : Option (Connection P)) → Keeps x → Keeps y → Keeps (if b then x else y)
  if-Keeps true x y h k = h
  if-Keeps false x y h k = k

module _ {P : Type 0} (http : HttpParser P) (conf : ThreadConf) (a : Answers)
    (Q : UrlInfo → Bytes → Counters → Type 0) where
  write_request-Kept : (c : Connection P) → Kept Q c → Kept Q (write_request conf a c)
  unfolding write_request
  write_request-Kept c k = elim (Bool-cases (not c.write_dirty && not conf.oauth)) [
    | inl same ↦ rw same k
    | inr fresh ↦ rw fresh k
  ]

  write_and_send-Keeps : (c : Connection P) → Kept Q c → Keeps Q (write_and_send http conf a c)
  write_and_send-Keeps c k = if-Keeps Q c.has_socket _ none (write_request-Kept c k) tt

  after_connect-Keeps :
      (c : Connection P) (ok : Bool) → Kept Q c → Keeps Q (after_connect http conf a (ok, c))
  after_connect-Keeps c true k = write_and_send-Keeps _ k
  after_connect-Keeps c false k = k

  connect-Keeps :
      (c : Connection P) → Kept Q c → Keeps Q (connect http conf a c >>= after_connect http conf a)
  unfolding connect
  connect-Keeps c k = elim (Option-cases (address c.url conf.index)) [
    | inl unknown ↦ rw unknown tt
    | inr (addr, e) ↦ elim (Bool-cases (not (valid addr))) [
      | inl bad ↦ rw (e, bad) k
      | inr good ↦ elim (Bool-cases (is_ok a.connect)) [
        | inl fine ↦
            rw (e, good, fine) (after_connect-Keeps (record c { has_socket = true }) true k)
        | inr refused ↦ rw (e, good, refused) k
      ]
    ]
  ]

  connect_and_send-Keeps : (c : Connection P) → Kept Q c → Keeps Q (connect_and_send http conf a c)
  unfolding connect_and_send
  connect_and_send-Keeps c k =
      if-Keeps Q c.needs_open _ _ (connect-Keeps (record c { start_time = a.start }) k)
        (write_and_send-Keeps (record c { start_time = a.start }) k)

  pub thinking_done-Keeps : (c : Connection P) → Kept Q c → Keeps Q (thinking_done http conf a c)
  unfolding thinking_done
  thinking_done-Keeps c k = connect_and_send-Keeps (record c { timer = none }) k

  pub start_connect-Keeps :
      (c : Connection P) → Q a.next_url c.unparsed c.stats → Keeps Q (start_connect http conf a c)
  unfolding start_connect
  start_connect-Keeps c k = connect_and_send-Keeps _ k

  think_or_send-Keeps : (c : Connection P) → Kept Q c → Keeps Q (think_or_send http conf a c)
  think_or_send-Keeps c k = if-Keeps Q (ltb 0 conf.think_time) _ _ k (connect_and_send-Keeps c k)

  closed-Keeps : (c : Connection P) → Kept Q c → Keeps Q (closed http conf a c)
  unfolding close_done
  closed-Keeps c k =
      if-Keeps Q (not c.keep_running || not conf.keep_running) _ _ k (think_or_send-Keeps _ k)

  after_close-Keeps :
      (c : Connection P) (r : StatusOr IoStatus) → Kept Q c → Keeps Q (after_close http conf a c r)
  after_close-Keeps c (StatusOr.failed s) k = closed-Keeps (stop_io http conf c) k
  after_close-Keeps c (StatusOr.value IoStatus.ok) k = closed-Keeps c k
  after_close-Keeps c (StatusOr.value IoStatus.feof) k = closed-Keeps c k
  after_close-Keeps c (StatusOr.value IoStatus.need_read) k = k
  after_close-Keeps c (StatusOr.value IoStatus.need_write) k = k

  pub recycle-Keeps :
      (c : Connection P) (close_conn : Bool) → Kept Q c → Keeps Q (recycle http conf a close_conn c)
  unfolding recycle close
  recycle-Keeps c close_conn k =
      if-Keeps Q (close_conn || (conf.no_keep_alive || not conf.keep_running)) _ _
        (if-Keeps Q c.has_socket _ none
          (after_close-Keeps (record c { needs_open = true }) a.close k) tt)
        (think_or_send-Keeps (record c { needs_open = false }) k)

  pub next_request-Keeps :
      (c : Connection P) (same : Bool)
      → Q a.next_url c.unparsed c.stats
      → Keeps Q (next_request http conf a c same)
  next_request-Keeps c true k =
      recycle-Keeps
        (record c {
          url = a.next_url;
          url_id = a.next_id;
          write_dirty = c.write_dirty || not (a.next_id == c.url_id);
        })
        false k
  next_request-Keeps c false k =
      recycle-Keeps (record c { url = a.next_url; url_id = a.next_id; write_dirty = true }) true k

  shutdown-Keeps :
      (c : Connection P) (r : StatusOr IoStatus)
      → Kept Q c
      → Keeps Q (after_shutdown_read http conf a c r)
  shutdown-Keeps c (StatusOr.failed s) k = closed-Keeps (stop_io http conf c) k
  shutdown-Keeps c (StatusOr.value IoStatus.ok) k = closed-Keeps (stop_io http conf c) k
  shutdown-Keeps c (StatusOr.value IoStatus.feof) k = closed-Keeps (stop_io http conf c) k
  shutdown-Keeps c (StatusOr.value IoStatus.need_read) k = elim (Bool-cases c.backwards_io) [
    | inl turned ↦ rw turned k
    | inr straight ↦ rw straight k
  ]
  shutdown-Keeps c (StatusOr.value IoStatus.need_write) k = elim (Bool-cases c.backwards_io) [
    | inl turned ↦ rw turned k
    | inr straight ↦ rw straight k
  ]

  pub complete_shutdown-Keeps :
      (c : Connection P) (r : StatusOr IoStatus)
      → Kept Q c
      → Keeps Q (complete_shutdown http conf a c r)
  unfolding complete_shutdown
  complete_shutdown-Keeps c r k = if-Keeps Q c.has_socket _ none (shutdown-Keeps c r k) tt
