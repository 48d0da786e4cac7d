-- ===== src/Connection/Life.antt =====
-- The life of a connection of apib/apib_iothread.cc and apib/apib_io_basic.cc in its event loop: which
-- callbacks libev may call, and what holds whatever their order.
mod Tests
use apib.Prelude.{
  ℕ, ◌-◌, ◌≡◌, refl, sym, subst, Bool, true, false, Option, some, List, [], ◌∷◌, ◌++◌, length, inl,
  inr,
}
use apib.Status.{StatusOr}
use apib.Url.{UrlInfo}
use apib.Connection.{IoStatus, Handler, ThreadConf, HttpParser, Connection, Answers}
use apib.Connection.Events.{
  start_connect, thinking_done, write_ready, read_ready, complete_shutdown, stop_running,
}
use apib.Connection.Phases.{Io, Thinking, Waits, Goes, Known}
use apib.Connection.Frame.{Kept, Keeps, thinking_done-Keeps, complete_shutdown-Keeps}
use apib.Connection.Io.{thinking_done-Goes, complete_shutdown-Goes}
use apib.Connection.Writing.{Wrote, Fits, would_block, write_ready-Goes}
use apib.Connection.Reading.{Got, Consumes, ReadsFit, nothing_yet, read_ready-Goes}
use apib.Connection.Room.{Fit, write_ready-Keeps, read_ready-Keeps}

module _ {P : Type 0} (http : HttpParser P) (conf : ThreadConf) (S : UrlInfo → Type 0) where
  -- the thread, with its flag keepRunning
  abbrev pub running : Bool → ThreadConf
  running on = record conf { keep_running = on }

  -- One event of a connection: the timer that it set, its watcher, which is active, with the
  -- callback that it has, or stopRunning. The answers take URLs of the list only, the socket never
  -- writes more than it is given, and the loops end where the socket has nothing more.
  pub data Step (on : Bool) (c : Connection P) (o : Option (Connection P)) : Type 0 where
    timer :
        (a : Answers) (delay : ℕ)
        → S a.next_url
        → c.timer ≡ some delay
        → o ≡ thinking_done http (running on) a c
        → Step on c o
    writable :
        (a : Answers) (ws : List Wrote)
        → S a.next_url
        → c.io.active ≡ true
        → c.io.handler ≡ Handler.write_ready
        → Fits (length c.full_write - c.full_write_pos) ws
        → o ≡ write_ready http (running on) a (ws ++ (would_block ∷ [])) c
        → Step on c o
    readable :
        (a : Answers) (rs : List Got)
        → S a.next_url
        → c.io.active ≡ true
        → c.io.handler ≡ Handler.read_ready
        → ReadsFit http (running on) a (rs ++ (nothing_yet ∷ [])) c
        → o ≡ read_ready http (running on) a (rs ++ (nothing_yet ∷ [])) c
        → Step on c o
    shut :
        (a : Answers) (r : StatusOr IoStatus)
        → S a.next_url
        → c.io.active ≡ true
        → c.io.handler ≡ Handler.complete_shutdown
        → o ≡ complete_shutdown http (running on) a c r
        → Step on c o
    asked : o ≡ some (stop_running http (running on) c) → Step on c o

  -- The events of a connection from StartConnect on, any of them at any time, with the flag of the
  -- thread. The flag is clear from the start for a single request; at some time the thread may be
  -- told to stop, which clears it for good.
  pub data Life (new : Connection P) : Bool → Option (Connection P) → Type 0 where
    start :
        (on : Bool) (a : Answers)
        → S a.next_url
        → Life new on (start_connect http (running on) a new)
    event :
        {on : Bool} {o o' : Option (Connection P)} (c : Connection P)
        → Life new on o
        → o ≡ some c
        → Step on c o'
        → Life new on o'
    halt : {on : Bool} {o : Option (Connection P)} → Life new on o → Life new false o

  module _ (known : (u v : UrlInfo) → S u → S v → Known conf u v) (consumes : Consumes http) where
    -- an event ends, and leaves the connection waiting, with a URL of the list and room to read
    abbrev pub Lives : Bool → Option (Connection P) → Type 0
    Lives on o = Goes (running on) o × Keeps (Fit S) o

    pub known_running : (on : Bool) (u v : UrlInfo) → S u → S v → Known (running on) u v
    known_running on u v s t =
        let k = known u v s t in
        record {
          old = k.old;
          old_is = k.old_is;
          new = k.new;
          new_is = k.new_is;
          same = k.same;
          same_is = k.same_is;
        }

    pub active-Io :
        (on : Bool) (c : Connection P) → Waits (running on) c → c.io.active ≡ true → Io c
    active-Io on c (inl i) e = i
    active-Io on c (inr (inl t)) e = let s = t.stopped in cc
    active-Io on c (inr (inr v)) e = let s = v.stopped in cc

    set_timer :
        (on : Bool) (c : Connection P) (delay : ℕ)
        → Waits (running on) c
        → c.timer ≡ some delay
        → Thinking c
    set_timer on c delay (inl i) e = let s = i.no_timer in cc
    set_timer on c delay (inr (inl t)) e = t
    set_timer on c delay (inr (inr v)) e = let s = v.no_timer in cc

    stop_running-Waits :
        (on : Bool) (c : Connection P)
        → Waits (running on) c
        → Waits (running on) (stop_running http (running on) c)
    unfolding stop_running
    stop_running-Waits on c (inl i) = inl (record {
      active = i.active;
      no_timer = i.no_timer;
      socket = i.socket;
      directed = i.directed;
      unsent = i.unsent;
      can_send = i.can_send;
      reopens = i.reopens;
    })
    stop_running-Waits on c (inr (inl t)) = inr (
        inl (record {
          stopped = t.stopped;
          delay = t.delay;
          timer = t.timer;
          socket = t.socket;
          can_send = t.can_send;
        }))
    stop_running-Waits on c (inr (inr v)) = inr (
        inr (record {
          stopped = v.stopped;
          no_timer = v.no_timer;
          no_socket = v.no_socket;
          asked_to_stop = refl;
        }))

    stop_running-Kept :
        (on : Bool) (c : Connection P)
        → Kept (Fit S) c
        → Kept (Fit S) (stop_running http (running on) c)
    unfolding stop_running
    stop_running-Kept on c k = k

    pub Step-Lives :
        (on : Bool) (c : Connection P) (o : Option (Connection P))
        → Waits (running on) c
        → Kept (Fit S) c
        → Step on c o
        → Lives on o
    Step-Lives on c o w k (timer a delay s e f) =
        let kn = known_running on c.url c.url k.0 k.0 in
        subst (Lives on) (sym f) (
          thinking_done-Goes http (running on) a c kn.old (set_timer on c delay w e) kn.old_is,
          thinking_done-Keeps http (running on) a (Fit S) c k,
        )
    Step-Lives on c o w k (writable a ws s e h fits f) =
        let kn = known_running on c.url c.url k.0 k.0 in
        subst (Lives on) (sym f) (
          write_ready-Goes http (running on) a c ws kn.old (active-Io on c w e) h kn.old_is fits,
          write_ready-Keeps http (running on) a S s (ws ++ (would_block ∷ [])) c k,
        )
    Step-Lives on c o w k (readable a rs s e h fits f) = subst (Lives on) (sym f) (
      read_ready-Goes http (running on) a consumes c rs (active-Io on c w e) h k.1
          (known_running on c.url a.next_url k.0 s) fits,
      read_ready-Keeps http (running on) a S s consumes (rs ++ (nothing_yet ∷ [])) c k fits,
    )
    Step-Lives on c o w k (shut a r s e h f) =
        let kn = known_running on c.url c.url k.0 k.0 in
        subst (Lives on) (sym f) (
          complete_shutdown-Goes http (running on) a c r (active-Io on c w e) h kn.old kn.old_is,
          complete_shutdown-Keeps http (running on) a (Fit S) c r k,
        )
    Step-Lives on c o w k (asked f) =
        subst (Lives on) (sym f) ((_, refl, stop_running-Waits on c w), stop_running-Kept on c k)

    pub some-Waits :
        (on : Bool) (c : Connection P) → Lives on (some c) → Waits (running on) c × Kept (Fit S) c
    some-Waits on c ((d, f, w), k) = (subst (Waits (running on)) (sym (value f)) w, k)
      where
        value : {x y : Connection P} → some x ≡ some y → x ≡ y
        value f = cc
