-- ===== src/Connection/Stopping.antt =====
-- apib/apib_iothread.cc: what stopRunning does to a connection.
use apib.Prelude.{
  ◌≡◌, refl, sym, ap, ◌-◌, ◌∙◌, subst, true, false, not, ◌&&◌, ◌||◌, Option, some, ltb, if-true,
  if-false, ◌>>=◌, Bool-cases, inl, inr, arith,
}
use apib.Url.{is_same_server}
use apib.Thread.{record_result}
use apib.Connection.{Handler, ThreadConf, HttpParser, Connection, Answers, write_request}
use apib.Connection.Events.{
  close_done, read_done, recycle, connect_and_send, stop_running, next_request, send_write,
  write_and_send,
}

module _ {P : Type 0} (http : HttpParser P) (conf : ThreadConf) (a : Answers) where
  -- A connection that was asked to stop does so once it is closed: nothing waits any more.
  pub close_done-stop_running :
      (c : Connection P)
      → close_done http conf a (stop_running http conf c) ≡ some (stop_running http conf c)
  unfolding close_done stop_running
  close_done-stop_running c = refl

  write_request-keep :
      (c : Connection P)
      → ((write_request conf a c).keep_running ≡ c.keep_running)
        × ((write_request conf a c).has_socket ≡ c.has_socket)
  unfolding write_request
  write_request-keep c = elim (Bool-cases (not c.write_dirty && not conf.oauth)) [
    | inl same ↦ rw same (refl, refl)
    | inr fresh ↦ rw fresh (refl, refl)
  ]

  abbrev pub Sends : Option (Connection P) → Type 0
  Sends r =
      (d : Connection P) × (r ≡ some d)
      × (d.keep_running ≡ false)
      × (d.has_socket ≡ true)
      × (d.io.active ≡ true)
      × (d.io.handler ≡ Handler.write_ready)

  write_and_send-Sends :
      (c : Connection P)
      → c.keep_running ≡ false
      → c.has_socket ≡ true
      → Sends (write_and_send http conf a c)
  write_and_send-Sends c k h =
      let (l, r) = write_request-keep c in
      (send_write http conf (write_request conf a c), if-true _ _ _ h, l ∙ k, r ∙ h, refl, refl)

  recycle-Sends :
      (c : Connection P)
      → conf.keep_running ≡ true
      → conf.no_keep_alive ≡ false
      → conf.think_time ≡ 0
      → c.keep_running ≡ false
      → c.has_socket ≡ true
      → Sends (recycle http conf a false c)
  unfolding recycle connect_and_send
  recycle-Sends c on alive fast k h =
      let open_still : (false || (conf.no_keep_alive || not conf.keep_running)) ≡ false =
        ground arith in
      let at_once : ltb 0 conf.think_time ≡ false = ground arith in
      subst Sends (sym (if-false _ _ _ open_still ∙ if-false _ _ _ at_once))
        (write_and_send-Sends (record c { needs_open = false; start_time = a.start }) k h)

  -- A connection with a socket that was asked to stop, in a thread that runs with keep-alive and
  -- no think time, sends the next request behind a response that the server keeps the connection
  -- open for, if the next URL is of the same server.
  pub read_done-stop_running :
      (c : Connection P)
      → conf.keep_running ≡ true
      → conf.no_keep_alive ≡ false
      → conf.think_time ≡ 0
      → c.has_socket ≡ true
      → http.should_keep_alive c.parser ≡ true
      → is_same_server c.url a.next_url conf.index ≡ some true
      → Sends (read_done http conf a false (stop_running http conf c))
  unfolding read_done stop_running
  read_done-stop_running c on alive fast h keep same =
      let kept : not (http.should_keep_alive c.parser) ≡ false = ap not keep in
      let next = next_request http conf a (record c {
        keep_running = false;
        stats = record_result c.stats (http.status_code c.parser) (a.now - c.start_time);
      }) in
      subst Sends (sym (if-false _ _ _ kept ∙ ap (λ o. o >>= next) same))
        (recycle-Sends _ on alive fast refl h)
