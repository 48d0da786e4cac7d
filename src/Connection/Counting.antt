-- ===== src/Connection/Counting.antt =====
-- apib/apib_iothread.cc: what ReadDone adds to the counters, and what no other part of an event does.
use apib.Prelude.{◌-◌, ◌≡◌, refl, subst, Bool, true, false, not, some, Bytes}
use apib.Url.{UrlInfo, is_same_server}
use apib.Thread.{Counters, record_result}
use apib.Connection.{ThreadConf, HttpParser, Connection, Answers}
use apib.Connection.Events.{read_done, record_socket_error}
use apib.Connection.Phases.{Idle, Known}
use apib.Connection.Frame.{Keeps, if-Keeps, bind-Keeps, recycle-Keeps, next_request-Keeps}
use apib.Connection.Io.{read_done-Goes}

-- the counters of the thread are these
abbrev pub Counts : Counters → UrlInfo → Bytes → Counters → Type 0
Counts s url text stats = stats ≡ s

module _ {P : Type 0} (http : HttpParser P) (conf : ThreadConf) (a : Answers) where
  -- what a response, or an error in place of one, adds
  abbrev pub outcome : Connection P → Bool → Counters
  outcome c true = c.stats
  outcome c false = record_result c.stats (http.status_code c.parser) (a.now - c.start_time)

  abbrev pub responded : Connection P → Connection P
  responded c = record c { stats = outcome c false }

  done-Counts :
      (c : Connection P) (failed : Bool)
      → Keeps (Counts (outcome c failed)) (read_done http conf a failed c)
  unfolding read_done
  done-Counts c true =
      recycle-Keeps http conf a (Counts (outcome c true)) (record_socket_error http conf c) true
        refl
  done-Counts c false =
      let q = Counts (outcome c false) in
      if-Keeps q (not (http.should_keep_alive c.parser)) _ _
        (recycle-Keeps http conf a q (responded c) true refl)
        (bind-Keeps q (is_same_server c.url a.next_url conf.index) _
          (λ same. next_request-Keeps http conf a q (responded c) same refl))

  -- ReadDone, called while nothing waits and the socket is open, with addresses of known families,
  -- ends; it records a response once, with its status and its latency, whatever happens to the
  -- connection then, and records nothing for an error.
  pub read_done-outcome :
      (c : Connection P) (failed : Bool)
      → Idle c
      → c.has_socket ≡ true
      → Known conf c.url a.next_url
      → (d : Connection P) × (read_done http conf a failed c ≡ some d)
        × (d.stats ≡ outcome c failed)
  read_done-outcome c failed i h k =
      let (d, e, _) = read_done-Goes http conf a c failed i h k in
      (d, e, subst (Keeps (Counts (outcome c failed))) e (done-Counts c failed))
