-- ===== src/Connection/Events.antt =====
-- The handlers of ConnectionState: apib/apib_iothread.cc, and apib/apib_io_basic.cc for the input
-- and output. Each of them ends by leaving a watcher or a timer to libev, or the connection closed.
use apib.Prelude.{
  ℕ, suc, ◌+◌, ◌-◌, Bool, true, false, not, ◌||◌, Option, none, some, List, [], ◌∷◌, ◌++◌, Bytes,
  length, drop, ltb, ◌==◌, if◌then◌else◌, ◌>>=◌,
}
use apib.Status.{is_ok, StatusOr}
use apib.Addresses.{valid}
use apib.Url.{address, is_same_server}
use apib.Thread.{record_result, record_read, record_write}
use apib.Connection.{
  IoStatus, Direction, Handler, ThreadConf, Parsed, HttpParser, Connection, Answers, write_request,
}

abbrev pub read_buf_size : ℕ
read_buf_size = 8192

-- milliseconds
abbrev pub connect_failure_delay : ℕ
connect_failure_delay = 250

module _ {P : Type 0} (http : HttpParser P) (conf : ThreadConf) where
  -- ev_io_init and ev_io_start
  abbrev pub start_io : Handler → Direction → Connection P → Connection P
  start_io h d c = record c { io = record { handler = h; direction = d; active = true } }

  -- ev_io_stop
  abbrev pub stop_io : Connection P → Connection P
  stop_io c = record c { io = record (c.io) { active = false } }

  -- ev_io_stop, ev_io_set or ev_io_modify, and ev_io_start
  abbrev pub turn_io : Direction → Connection P → Connection P
  turn_io d c = record c { io = record (c.io) { direction = d; active = true } }

  -- SendWrite
  abbrev pub send_write : Connection P → Connection P
  send_write c =
      start_io Handler.write_ready Direction.for_write (record c { backwards_io = false })

  -- SendRead
  abbrev pub send_read : Connection P → Option (Connection P)
  send_read c =
      if c.has_socket
      then some (start_io Handler.read_ready Direction.for_read (record c { backwards_io = false }))
      else none

  -- sendAfterDelay; the timer fires once
  abbrev pub send_after_delay : ℕ → Connection P → Connection P
  send_after_delay ms c = record c { timer = some ms }

  -- addThinkTime
  abbrev pub add_think_time : Connection P → Connection P
  add_think_time c = send_after_delay conf.think_time c

  -- RecordSocketError
  abbrev pub record_socket_error : Connection P → Connection P
  record_socket_error c = record c { socket_errors = suc c.socket_errors }

  -- Connect: whether it gives 0; the old socket goes when the new one takes its place
  unfoldable pub connect : Answers → Connection P → Option (Bool × Connection P)
  connect a c = address c.url conf.index >>= λ addr.
      if not (valid addr)
      then some (false, c)
      else if is_ok a.connect
      then some (true, record c { has_socket = true })
      else some (false, c)

  -- writeRequest and SendWrite; `none`: there is no socket
  abbrev pub write_and_send : Answers → Connection P → Option (Connection P)
  write_and_send a c = if c.has_socket then some (send_write (write_request conf a c)) else none

  abbrev pub after_connect : Answers → Bool × Connection P → Option (Connection P)
  after_connect a (true, c) = write_and_send a (record c { opened = suc c.opened })
  after_connect a (false, c) = some (send_after_delay connect_failure_delay (record_socket_error c))

  -- ConnectAndSend
  unfoldable pub connect_and_send : Answers → Connection P → Option (Connection P)
  connect_and_send a c =
      let started = record c { start_time = a.start } in
      if c.needs_open then connect a started >>= after_connect a else write_and_send a started

  -- thinkingDone, the callback of the timer
  unfoldable pub thinking_done : Answers → Connection P → Option (Connection P)
  thinking_done a c = connect_and_send a (record c { timer = none })

  abbrev pub think_or_send : Answers → Connection P → Option (Connection P)
  think_or_send a c =
      if ltb 0 conf.think_time then some (add_think_time c) else connect_and_send a c

  -- CloseDone
  unfoldable pub close_done : Answers → Connection P → Option (Connection P)
  close_done a c = if not c.keep_running || not conf.keep_running then some c else think_or_send a c

  -- socket_.reset() and CloseDone
  abbrev pub closed : Answers → Connection P → Option (Connection P)
  closed a c = close_done a (record c { has_socket = false })

  abbrev pub after_close : Answers → Connection P → StatusOr IoStatus → Option (Connection P)
  after_close a c (StatusOr.failed s) = closed a (stop_io c)
  after_close a c (StatusOr.value IoStatus.ok) = closed a c
  after_close a c (StatusOr.value IoStatus.feof) = closed a c
  after_close a c (StatusOr.value IoStatus.need_read) =
      some
        (start_io Handler.complete_shutdown Direction.for_read (record c { backwards_io = false }))
  after_close a c (StatusOr.value IoStatus.need_write) =
      some
        (start_io Handler.complete_shutdown Direction.for_write (record c { backwards_io = true }))

  -- Close; `none`: there is no socket
  unfoldable pub close : Answers → Connection P → Option (Connection P)
  close a c = if c.has_socket then after_close a c a.close else none

  -- recycle
  unfoldable pub recycle : Answers → Bool → Connection P → Option (Connection P)
  recycle a close_conn c =
      if close_conn || (conf.no_keep_alive || not conf.keep_running)
      then close a (record c { needs_open = true })
      else think_or_send a (record c { needs_open = false })

  -- StartConnect
  unfoldable pub start_connect : Answers → Connection P → Option (Connection P)
  start_connect a c =
      connect_and_send a (record c { url = a.next_url; url_id = a.next_id; needs_open = true })

  -- WriteDone; `failed` is an error that is not 0
  unfoldable pub write_done : Answers → Bool → Connection P → Option (Connection P)
  write_done a true c = recycle a true (record_socket_error c)
  write_done a false c = send_read (record c { read_done = false; parser = http.init })

  abbrev pub next_request : Answers → Connection P → Bool → Option (Connection P)
  next_request a c true = recycle a false (record c {
    url = a.next_url;
    url_id = a.next_id;
    write_dirty = c.write_dirty || not (a.next_id == c.url_id);
  })
  next_request a c false =
      recycle a true (record c { url = a.next_url; url_id = a.next_id; write_dirty = true })

  -- ReadDone
  unfoldable pub read_done : Answers → Bool → Connection P → Option (Connection P)
  read_done a true c = recycle a true (record_socket_error c)
  read_done a false c =
      let r = record c {
        stats = record_result c.stats (http.status_code c.parser) (a.now - c.start_time);
      } in
      if not (http.should_keep_alive c.parser)
      then recycle a true r
      else is_same_server c.url a.next_url conf.index >>= next_request a r

  -- stopRunning
  unfoldable pub stop_running : Connection P → Connection P
  stop_running c = record c { keep_running = false }

  -- singleWrite, for what the socket answers and the count of bytes that it wrote: whether to go on
  abbrev pub after_write :
      Answers → Connection P → StatusOr IoStatus → ℕ → Option (Bool × Connection P)
  after_write a c (StatusOr.failed s) wrote = write_done a true (stop_io c) >>= λ d. some (false, d)
  after_write a c (StatusOr.value IoStatus.ok) wrote =
      let d = record c {
        full_write_pos = c.full_write_pos + wrote;
        stats = record_write c.stats wrote;
      } in
      if d.full_write_pos == length d.full_write
      then (write_done a false (stop_io d) >>= λ e. some (false, e))
      else some (true, d)
  after_write a c (StatusOr.value IoStatus.feof) wrote = some (true, c)
  after_write a c (StatusOr.value IoStatus.need_write) wrote = some (
    false,
    if c.backwards_io then turn_io Direction.for_write (record c { backwards_io = false }) else c,
  )
  after_write a c (StatusOr.value IoStatus.need_read) wrote = some (
    false,
    if c.backwards_io then c else turn_io Direction.for_read (record c { backwards_io = true }),
  )

  unfoldable pub single_write :
      Answers → Connection P → StatusOr IoStatus → ℕ → Option (Bool × Connection P)
  single_write a c status wrote =
      if not c.has_socket || (length c.full_write - c.full_write_pos == 0)
      then none
      else after_write a c status wrote

  -- the loop of writeReady, over the answers of the socket; `none`: it asks for one more
  abbrev pub go_on :
      (Connection P → Option (Connection P)) → Bool × Connection P → Option (Connection P)
  go_on more (true, c) = more c
  go_on more (false, c) = some c

  unfoldable pub write_ready :
      Answers → List (StatusOr IoStatus × ℕ) → Connection P → Option (Connection P)
  write_ready a [] c = none
  write_ready a (w ∷ ws) c = single_write a c w.0 w.1 >>= go_on (write_ready a ws)

  abbrev pub after_parse : Answers → Connection P → Bytes → Parsed P → Option (Bool × Connection P)
  after_parse a c text p =
      let d = record c { parser = p.parser; read_done = c.read_done || p.complete } in
      if p.failed
      then (read_done a true (stop_io d) >>= λ e. some (false, e))
      else (let u = record d { unparsed = drop p.parsed text } in
          if u.read_done
          then (read_done a false (stop_io u) >>= λ e. some (false, e))
          else some (true, u))

  -- singleRead, for what the socket answers and the bytes that it put into the buffer
  abbrev pub after_read :
      Answers → Connection P → StatusOr IoStatus → Bytes → Option (Bool × Connection P)
  after_read a c (StatusOr.failed s) got = read_done a true (stop_io c) >>= λ d. some (false, d)
  after_read a c (StatusOr.value IoStatus.ok) got =
      let text = c.unparsed ++ got in
      after_parse a (record c { stats = record_read c.stats (length got) }) text
        (http.execute c.parser text)
  after_read a c (StatusOr.value IoStatus.feof) got =
      read_done a (not c.read_done) (stop_io c) >>= λ d. some (false, d)
  after_read a c (StatusOr.value IoStatus.need_read) got = some (
    false,
    if c.backwards_io then turn_io Direction.for_read (record c { backwards_io = false }) else c,
  )
  after_read a c (StatusOr.value IoStatus.need_write) got = some (
    false,
    if c.backwards_io then c else turn_io Direction.for_write (record c { backwards_io = true }),
  )

  unfoldable pub single_read :
      Answers → Connection P → StatusOr IoStatus → Bytes → Option (Bool × Connection P)
  single_read a c status got =
      if not c.has_socket || (read_buf_size - length c.unparsed == 0)
      then none
      else after_read a c status got

  -- the loop of readReady
  unfoldable pub read_ready :
      Answers → List (StatusOr IoStatus × Bytes) → Connection P → Option (Connection P)
  read_ready a [] c = none
  read_ready a (r ∷ rs) c = single_read a c r.0 r.1 >>= go_on (read_ready a rs)

  -- completeShutdown, for what the read of the socket answers
  abbrev pub after_shutdown_read :
      Answers → Connection P → StatusOr IoStatus → Option (Connection P)
  after_shutdown_read a c (StatusOr.failed s) = closed a (stop_io c)
  after_shutdown_read a c (StatusOr.value IoStatus.ok) = closed a (stop_io c)
  after_shutdown_read a c (StatusOr.value IoStatus.feof) = closed a (stop_io c)
  after_shutdown_read a c (StatusOr.value IoStatus.need_read) =
      some (
        if c.backwards_io
        then turn_io Direction.for_read (record c { backwards_io = false })
        else c)
  after_shutdown_read a c (StatusOr.value IoStatus.need_write) =
      some (
        if c.backwards_io
        then c
        else turn_io Direction.for_write (record c { backwards_io = true }))

  unfoldable pub complete_shutdown :
      Answers → Connection P → StatusOr IoStatus → Option (Connection P)
  complete_shutdown a c status = if c.has_socket then after_shutdown_read a c status else none
