-- ===== src/Connection/Winding.antt =====
-- apib/apib_iothread.cc and apib/apib_io_basic.cc, in a thread that was told to stop: how the phases
-- of a connection follow one another.
pub mod Rounds
pub mod Ends
use apib.Prelude.{
  ℕ, suc, ◌+◌, ◌-◌, ◌≤◌, ◌≡◌, refl, sym, subst, Bool, true, false, not, ◌||◌, ◌==◌, Option, none,
  some, List, [], ◌∷◌, ◌++◌, All, Bytes, length, drop, arith, if-true, if◌then◌else◌, ◌>>=◌,
}
use apib.Status.{StatusOr}
use apib.Url.{is_same_server}
use apib.Thread.{record_result, record_read, record_write}
use apib.Connection.{
  IoStatus, Direction, Handler, Watcher, ThreadConf, Parsed, HttpParser, Connection, Answers,
}
use apib.Connection.Events.{
  read_buf_size, close, recycle, close_done, closed, after_close, write_done, read_done,
  next_request, record_socket_error, stop_io, go_on, after_write, single_write, write_ready,
  after_parse, after_read, single_read, read_ready, after_shutdown_read, complete_shutdown,
}
use apib.Connection.Writing.{Wrote}
use apib.Connection.Reading.{Got}

abbrev pub handler_rank : Handler → ℕ
handler_rank Handler.write_ready = 3
handler_rank Handler.read_ready = 2
handler_rank Handler.complete_shutdown = 1

abbrev pub rank_of : Option ℕ → Watcher → ℕ
rank_of (some delay) w = 4
rank_of none w = if w.active then handler_rank w.handler else 0

-- How far a connection is from its end: 4 for a timer, 3 to write, 2 to read, 1 to shut down, and 0
-- where nothing waits.
abbrev pub rank : {P : Type 0} → Connection P → ℕ
rank c = rank_of c.timer c.io

rank_of-bound : (t : Option ℕ) (w : Watcher) → rank_of t w ≤ 4
rank_of-bound (some delay) w = omega arith
rank_of-bound none w = active w.active w.handler
  where
    active : (b : Bool) (h : Handler) → (if b then handler_rank h else 0) ≤ 4
    active false h = omega arith
    active true Handler.write_ready = omega arith
    active true Handler.read_ready = omega arith
    active true Handler.complete_shutdown = omega arith

module _ {P : Type 0} where
  -- an event that ends, ends at this rank or a lower one
  abbrev pub AtMost : ℕ → Option (Connection P) → Type 0
  AtMost n none = Unit
  AtMost n (some d) = rank d ≤ n

  pub any-AtMost : (o : Option (Connection P)) → AtMost 4 o
  any-AtMost none = tt
  any-AtMost (some d) = rank_of-bound d.timer d.io

  pub AtMost-up : (m n : ℕ) (o : Option (Connection P)) → m ≤ n → AtMost m o → AtMost n o
  AtMost-up m n none l h = tt
  AtMost-up m n (some d) l h = omega arith

  pub bind-AtMost :
      {X : Type 0} (n : ℕ) (o : Option X) (f : X → Option (Connection P))
      → ((x : X) → AtMost n (f x))
      → AtMost n (o >>= f)
  bind-AtMost n none f h = tt
  bind-AtMost n (some x) f h = h x

  pub if-AtMost :
      (n : ℕ) (b : Bool) (x y : Option (Connection P))
      → AtMost n x
      → AtMost n y
      → AtMost n (if b then x else y)
  if-AtMost n true x y h k = h
  if-AtMost n false x y h k = k

  -- nothing waits
  abbrev pub Still : Connection P → Type 0
  Still c = (c.timer ≡ none) × (c.io.active ≡ false)

  -- in a loop: no timer, and the watcher with this callback
  abbrev pub Loops : Handler → Connection P → Type 0
  Loops h c = (c.timer ≡ none) × (c.io.handler ≡ h)

  pub Loops-rank : (h : Handler) (c : Connection P) → Loops h c → rank c ≤ handler_rank h
  Loops-rank h c l = rw (l.0, l.1) (waits c.io.active)
    where
      waits : (b : Bool) → (if b then handler_rank h else 0) ≤ handler_rank h
      waits true = omega arith
      waits false = omega arith

module _ {P : Type 0} (http : HttpParser P) (conf : ThreadConf) (a : Answers)
    (stops : conf.keep_running ≡ false) where
  Still-rank : (n : ℕ) (c : Connection P) → Still c → rank c ≤ n
  Still-rank n c h = rw (h.0, h.1) (omega arith)

  pub closed-AtMost : (c : Connection P) → Still c → AtMost 0 (closed http conf a c)
  unfolding close_done
  closed-AtMost c h =
      let over : (not c.keep_running || not conf.keep_running) ≡ true = ground arith in
      subst (AtMost 0) (sym (if-true _ _ _ over)) (Still-rank 0 c h)

  after_close-AtMost :
      (c : Connection P) (r : StatusOr IoStatus) → Still c → AtMost 1 (after_close http conf a c r)
  after_close-AtMost c (StatusOr.failed s) h =
      AtMost-up 0 1 _ (omega arith) (closed-AtMost (stop_io http conf c) (h.0, refl))
  after_close-AtMost c (StatusOr.value IoStatus.ok) h =
      AtMost-up 0 1 _ (omega arith) (closed-AtMost c h)
  after_close-AtMost c (StatusOr.value IoStatus.feof) h =
      AtMost-up 0 1 _ (omega arith) (closed-AtMost c h)
  after_close-AtMost c (StatusOr.value IoStatus.need_read) h = rw h.0 (omega arith)
  after_close-AtMost c (StatusOr.value IoStatus.need_write) h = rw h.0 (omega arith)

  recycle-AtMost :
      (c : Connection P) (close_conn : Bool) → Still c → AtMost 1 (recycle http conf a close_conn c)
  unfolding recycle close
  recycle-AtMost c close_conn h =
      let over : (close_conn || (conf.no_keep_alive || not conf.keep_running)) ≡ true =
        ground arith in
      subst (AtMost 1) (sym (if-true _ _ _ over)) (
        if-AtMost 1 c.has_socket _ none
          (after_close-AtMost (record c { needs_open = true }) a.close h) tt)

  pub read_done-AtMost :
      (c : Connection P) (failed : Bool) → Still c → AtMost 1 (read_done http conf a failed c)
  unfolding read_done
  read_done-AtMost c true h = recycle-AtMost (record_socket_error http conf c) true h
  read_done-AtMost c false h =
      let r = record c {
        stats = record_result c.stats (http.status_code c.parser) (a.now - c.start_time);
      } in
      if-AtMost 1 (not (http.should_keep_alive c.parser)) _ _ (recycle-AtMost r true h)
        (bind-AtMost 1 (is_same_server c.url a.next_url conf.index) _ (next_request-AtMost r h))
    where
      next_request-AtMost :
          (r : Connection P) → Still r → (same : Bool) → AtMost 1 (next_request http conf a r same)
      next_request-AtMost r k true = recycle-AtMost _ false k
      next_request-AtMost r k false = recycle-AtMost _ true k

  pub write_done-AtMost :
      (c : Connection P) (failed : Bool) → Still c → AtMost 2 (write_done http conf a failed c)
  unfolding write_done
  write_done-AtMost c true h =
      AtMost-up 1 2 _ (omega arith) (recycle-AtMost (record_socket_error http conf c) true h)
  write_done-AtMost c false h = if-AtMost 2 c.has_socket _ none (rw h.0 (omega arith)) tt
