-- ===== src/Connection/Winding/Rounds.antt =====
-- The loops of apib/apib_io_basic.cc in a thread that was told to stop, round by round.
use apib.Prelude.{
  ℕ, ◌+◌, ◌-◌, ◌≤◌, ◌≡◌, refl, Bool, true, false, not, ◌||◌, ◌==◌, Option, none, some, List, [],
  ◌∷◌, ◌++◌, All, Bytes, length, drop, arith, if◌then◌else◌, ◌>>=◌,
}
use apib.Status.{StatusOr}
use apib.Thread.{record_read, record_write}
use apib.Connection.{IoStatus, Handler, ThreadConf, Parsed, HttpParser, Connection, Answers}
use apib.Connection.Events.{
  read_buf_size, stop_io, go_on, after_write, single_write, write_ready, after_parse, after_read,
  single_read, read_ready, after_shutdown_read, complete_shutdown,
}
use apib.Connection.Winding.{
  rank, AtMost, AtMost-up, if-AtMost, Loops, Loops-rank, handler_rank, closed-AtMost,
  write_done-AtMost, read_done-AtMost,
}
use apib.Connection.Writing.{Wrote}
use apib.Connection.Reading.{Got}

-- an answer that gives bytes, the end of the file or an error
abbrev pub Answered : Got → Type 0
Answered (StatusOr.failed s, got) = Unit
Answered (StatusOr.value IoStatus.ok, got) = Unit
Answered (StatusOr.value IoStatus.feof, got) = Unit
Answered (StatusOr.value IoStatus.need_read, got) = ⊥
Answered (StatusOr.value IoStatus.need_write, got) = ⊥

module _ {P : Type 0} (http : HttpParser P) (conf : ThreadConf) (a : Answers)
    (stops : conf.keep_running ≡ false) where
  -- a round that ends: it goes on in the loop, or is at this rank or a lower one
  abbrev Turn : Handler → ℕ → Option (Bool × Connection P) → Type 0
  Turn h n none = Unit
  Turn h n (some (true, d)) = Loops h d
  Turn h n (some (false, d)) = rank d ≤ n

  Turn-up :
      (h : Handler) (m n : ℕ) (o : Option (Bool × Connection P)) → m ≤ n → Turn h m o → Turn h n o
  Turn-up h m n none l t = tt
  Turn-up h m n (some (true, d)) l t = t
  Turn-up h m n (some (false, d)) l t = omega arith

  if-Turn :
      (h : Handler) (n : ℕ) (b : Bool) (x y : Option (Bool × Connection P))
      → Turn h n x
      → Turn h n y
      → Turn h n (if b then x else y)
  if-Turn h n true x y t u = t
  if-Turn h n false x y t u = u

  last-Turn :
      (h : Handler) (n : ℕ) (o : Option (Connection P))
      → AtMost n o
      → Turn h n (o >>= λ d. some (false, d))
  last-Turn h n none t = tt
  last-Turn h n (some d) t = t

  go_on-AtMost :
      (h : Handler) (n : ℕ) (more : Connection P → Option (Connection P))
      (o : Option (Bool × Connection P))
      → ((d : Connection P) → Loops h d → AtMost n (more d))
      → Turn h n o
      → AtMost n (o >>= go_on http conf more)
  go_on-AtMost h n more none f t = tt
  go_on-AtMost h n more (some (true, d)) f t = f d t
  go_on-AtMost h n more (some (false, d)) f t = t

  pick-rank :
      (h : Handler) (b : Bool) (c d : Connection P)
      → Loops h c
      → Loops h d
      → rank (if b then c else d) ≤ handler_rank h
  pick-rank h true c d k l = Loops-rank h c k
  pick-rank h false c d k l = Loops-rank h d l

  after_write-Turn :
      (c : Connection P) (w : Wrote)
      → Loops Handler.write_ready c
      → Turn Handler.write_ready 3 (after_write http conf a c w.0 w.1)
  after_write-Turn c (StatusOr.failed s, n) l =
      Turn-up _ 2 3 _ (omega arith) (
        last-Turn _ 2 _
          (write_done-AtMost http conf a stops (stop_io http conf c) true (l.0, refl)))
  after_write-Turn c (StatusOr.value IoStatus.ok, n) l =
      let d = record c { full_write_pos = c.full_write_pos + n; stats = record_write c.stats n } in
      if-Turn _ 3 (d.full_write_pos == length d.full_write) _ _
        (Turn-up _ 2 3 _ (omega arith) (
          last-Turn _ 2 _
            (write_done-AtMost http conf a stops (stop_io http conf d) false (l.0, refl))))
        l
  after_write-Turn c (StatusOr.value IoStatus.feof, n) l = l
  after_write-Turn c (StatusOr.value IoStatus.need_write, n) l =
      pick-rank Handler.write_ready c.backwards_io _ c l l
  after_write-Turn c (StatusOr.value IoStatus.need_read, n) l =
      pick-rank Handler.write_ready c.backwards_io c _ l l

  pub write_ready-AtMost :
      (ws : List Wrote) (c : Connection P)
      → Loops Handler.write_ready c
      → AtMost 3 (write_ready http conf a ws c)
  unfolding write_ready single_write
  write_ready-AtMost [] c l = tt
  write_ready-AtMost (w ∷ ws) c l =
      go_on-AtMost Handler.write_ready 3 (write_ready http conf a ws) _ (write_ready-AtMost ws) (
        if-Turn _ 3 (not c.has_socket || (length c.full_write - c.full_write_pos == 0)) none _ tt
          (after_write-Turn c w l))

  after_parse-Turn :
      (c : Connection P) (text : Bytes) (p : Parsed P)
      → Loops Handler.read_ready c
      → Turn Handler.read_ready 1 (after_parse http conf a c text p)
  after_parse-Turn c text p l =
      let d = record c { parser = p.parser; read_done = c.read_done || p.complete } in
      let u = record d { unparsed = drop p.parsed text } in
      if-Turn _ 1 p.failed _ _
        (last-Turn _ 1 _
          (read_done-AtMost http conf a stops (stop_io http conf d) true (l.0, refl)))
        (if-Turn _ 1 u.read_done _ _
          (last-Turn _ 1 _
            (read_done-AtMost http conf a stops (stop_io http conf u) false (l.0, refl)))
          l)

  Answered-Turn :
      (c : Connection P) (g : Got)
      → Answered g
      → Loops Handler.read_ready c
      → Turn Handler.read_ready 1 (after_read http conf a c g.0 g.1)
  Answered-Turn c (StatusOr.failed s, got) h l =
      last-Turn _ 1 _ (read_done-AtMost http conf a stops (stop_io http conf c) true (l.0, refl))
  Answered-Turn c (StatusOr.value IoStatus.ok, got) h l =
      after_parse-Turn (record c { stats = record_read c.stats (length got) }) (c.unparsed ++ got) _
        l
  Answered-Turn c (StatusOr.value IoStatus.feof, got) h l =
      last-Turn _ 1 _
        (read_done-AtMost http conf a stops (stop_io http conf c) (not c.read_done) (l.0, refl))
  Answered-Turn c (StatusOr.value IoStatus.need_read, got) h l = absurd h
  Answered-Turn c (StatusOr.value IoStatus.need_write, got) h l = absurd h

  after_read-Turn :
      (c : Connection P) (g : Got)
      → Loops Handler.read_ready c
      → Turn Handler.read_ready 2 (after_read http conf a c g.0 g.1)
  after_read-Turn c (StatusOr.failed s, got) l =
      Turn-up _ 1 2 _ (omega arith) (Answered-Turn c (StatusOr.failed s, got) tt l)
  after_read-Turn c (StatusOr.value IoStatus.ok, got) l =
      Turn-up _ 1 2 _ (omega arith) (Answered-Turn c (StatusOr.value IoStatus.ok, got) tt l)
  after_read-Turn c (StatusOr.value IoStatus.feof, got) l =
      Turn-up _ 1 2 _ (omega arith) (Answered-Turn c (StatusOr.value IoStatus.feof, got) tt l)
  after_read-Turn c (StatusOr.value IoStatus.need_read, got) l =
      pick-rank Handler.read_ready c.backwards_io _ c l l
  after_read-Turn c (StatusOr.value IoStatus.need_write, got) l =
      pick-rank Handler.read_ready c.backwards_io c _ l l

  may_read-Turn :
      (n : ℕ) (c : Connection P) (g : Got)
      → Turn Handler.read_ready n (after_read http conf a c g.0 g.1)
      → Turn Handler.read_ready n (single_read http conf a c g.0 g.1)
  unfolding single_read
  may_read-Turn n c g t =
      if-Turn _ n (not c.has_socket || (read_buf_size - length c.unparsed == 0)) none _ tt t

  pub read_ready-AtMost :
      (rs : List Got) (c : Connection P)
      → Loops Handler.read_ready c
      → AtMost 2 (read_ready http conf a rs c)
  unfolding read_ready
  read_ready-AtMost [] c l = tt
  read_ready-AtMost (g ∷ rs) c l =
      go_on-AtMost Handler.read_ready 2 (read_ready http conf a rs) _ (read_ready-AtMost rs)
        (may_read-Turn 2 c g (after_read-Turn c g l))

  -- the last round of a loop
  ended-AtMost :
      (n : ℕ) (more : Connection P → Option (Connection P)) (b : Bool) (o : Option (Connection P))
      → AtMost n o
      → AtMost n ((if b then none else (o >>= λ d. some (false, d))) >>= go_on http conf more)
  ended-AtMost n more true o h = tt
  ended-AtMost n more false none h = tt
  ended-AtMost n more false (some d) h = h

  -- The socket gives what it has, and then the end of the file.
  pub read_ready-feof :
      (rs rest : List Got) (got : Bytes) (c : Connection P)
      → All Answered rs
      → Loops Handler.read_ready c
      → AtMost 1 (read_ready http conf a (rs ++ ((StatusOr.value IoStatus.feof, got) ∷ rest)) c)
  unfolding read_ready single_read
  read_ready-feof [] rest got c h l =
      ended-AtMost 1 (read_ready http conf a rest)
        (not c.has_socket || (read_buf_size - length c.unparsed == 0)) _
        (read_done-AtMost http conf a stops (stop_io http conf c) (not c.read_done) (l.0, refl))
  read_ready-feof (g ∷ rs) rest got c h l =
      go_on-AtMost Handler.read_ready 1
        (read_ready http conf a (rs ++ ((StatusOr.value IoStatus.feof, got) ∷ rest))) _
        (λ d k. read_ready-feof rs rest got d h.1 k) (may_read-Turn 1 c g (Answered-Turn c g h.0 l))

  shutdown-AtMost :
      (c : Connection P) (r : StatusOr IoStatus)
      → Loops Handler.complete_shutdown c
      → AtMost 1 (after_shutdown_read http conf a c r)
  shutdown-AtMost c (StatusOr.failed s) l =
      AtMost-up 0 1 _ (omega arith)
        (closed-AtMost http conf a stops (stop_io http conf c) (l.0, refl))
  shutdown-AtMost c (StatusOr.value IoStatus.ok) l =
      AtMost-up 0 1 _ (omega arith)
        (closed-AtMost http conf a stops (stop_io http conf c) (l.0, refl))
  shutdown-AtMost c (StatusOr.value IoStatus.feof) l =
      AtMost-up 0 1 _ (omega arith)
        (closed-AtMost http conf a stops (stop_io http conf c) (l.0, refl))
  shutdown-AtMost c (StatusOr.value IoStatus.need_read) l =
      pick-rank Handler.complete_shutdown c.backwards_io _ c l l
  shutdown-AtMost c (StatusOr.value IoStatus.need_write) l =
      pick-rank Handler.complete_shutdown c.backwards_io c _ l l

  pub complete_shutdown-AtMost :
      (c : Connection P) (r : StatusOr IoStatus)
      → Loops Handler.complete_shutdown c
      → AtMost 1 (complete_shutdown http conf a c r)
  unfolding complete_shutdown
  complete_shutdown-AtMost c r l = if-AtMost 1 c.has_socket _ none (shutdown-AtMost c r l) tt

  -- a read of the shutdown that gives bytes, the end of the file or an error
  pub complete_shutdown-last :
      (c : Connection P) (g : Got)
      → Answered g
      → Loops Handler.complete_shutdown c
      → AtMost 0 (complete_shutdown http conf a c g.0)
  unfolding complete_shutdown
  complete_shutdown-last c g h l = if-AtMost 0 c.has_socket _ none (last g h) tt
    where
      last : (g : Got) → Answered g → AtMost 0 (after_shutdown_read http conf a c g.0)
      last (StatusOr.failed s, got) h =
          closed-AtMost http conf a stops (stop_io http conf c) (l.0, refl)
      last (StatusOr.value IoStatus.ok, got) h =
          closed-AtMost http conf a stops (stop_io http conf c) (l.0, refl)
      last (StatusOr.value IoStatus.feof, got) h =
          closed-AtMost http conf a stops (stop_io http conf c) (l.0, refl)
      last (StatusOr.value IoStatus.need_read, got) h = absurd h
      last (StatusOr.value IoStatus.need_write, got) h = absurd h
