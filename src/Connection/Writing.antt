-- ===== src/Connection/Writing.antt =====
-- apib/apib_io_basic.cc, singleWrite and writeReady: the loop that writes a request.
use apib.Prelude.{
  ℕ, ◌+◌, ◌-◌, ◌≤◌, ◌≡◌, refl, sym, subst, Bool, true, false, not, ◌||◌, Option, some, List, [],
  ◌∷◌, ◌++◌, length, ◌==◌, arith, inl, inr, Bool-cases, if-true, if-false, ◌>>=◌,
}
use apib.Status.{StatusOr}
use apib.Addresses.{Address}
use apib.Url.{address}
use apib.Thread.{record_write}
use apib.Connection.{IoStatus, Direction, Handler, ThreadConf, HttpParser, Connection, Answers}
use apib.Connection.Events.{stop_io, go_on, after_write, single_write, write_ready}
use apib.Connection.Phases.{Io, Waits, Goes}
use apib.Connection.Io.{write_done-Goes, turned_if, turned_unless}

-- An answer of the socket with the count of bytes that it wrote.
abbrev pub Wrote : Type 0
Wrote = StatusOr IoStatus × ℕ

-- The socket never writes more than it is given, of `left` bytes.
abbrev pub Fits : ℕ → List Wrote → Type 0
Fits left [] = Unit
Fits left ((StatusOr.value IoStatus.ok, n) ∷ ws) = (n ≤ left) × Fits (left - n) ws
Fits left ((_, n) ∷ ws) = Fits left ws

-- the answer of a socket that takes nothing more for now
abbrev pub would_block : Wrote
would_block = (StatusOr.value IoStatus.need_write, 0)

minus : (x y z : ℕ) → x - y - z ≡ x - (y + z)
minus x y z = omega arith

module _ {P : Type 0} (http : HttpParser P) (conf : ThreadConf) (a : Answers) where
  abbrev left : Connection P → ℕ
  left c = length c.full_write - c.full_write_pos

  -- in the loop: the watcher of the write, an address that is known, and answers that fit
  record Loop (ws : List Wrote) (c : Connection P) : Type 0 where
    io : Io c
    writes : c.io.handler ≡ Handler.write_ready
    addr : Address
    addr_is : address c.url conf.index ≡ some addr
    fits : Fits (left c) ws

  abbrev Round : List Wrote → Bool × Connection P → Type 0
  Round ws (true, d) = Loop ws d
  Round ws (false, d) = Waits conf d

  abbrev Rounds : List Wrote → Option (Bool × Connection P) → Type 0
  Rounds ws r = (p : Bool × Connection P) × (r ≡ some p) × Round ws p

  ends :
      (ws : List Wrote) (r : Option (Connection P))
      → Goes conf r
      → Rounds ws (r >>= λ d. some (false, d))
  ends ws r (d, e, w) = ((false, d), rw e refl, w)

  wrote_some :
      (ws : List Wrote) (c : Connection P) (n : ℕ)
      → Loop ((StatusOr.value IoStatus.ok, n) ∷ ws) c
      → Rounds ws (after_write http conf a c (StatusOr.value IoStatus.ok) n)
  wrote_some ws c n l = elim (Bool-cases (c.full_write_pos + n == length c.full_write)) [
    | inl whole ↦ subst (Rounds ws) (sym (if-true _ _ _ whole)) (
        ends ws _ (
          write_done-Goes http conf a (stop_io http conf (moved c n)) false
            (record {
              stopped = refl;
              no_timer = l.io.no_timer;
              socket = inl l.io.socket;
              can_send = l.io.can_send;
            })
            l.io.socket l.addr l.addr_is))
    | inr part ↦ subst (Rounds ws) (sym (if-false _ _ _ part)) (
      (true, moved c n),
      refl,
      record {
        io = record {
          active = l.io.active;
          no_timer = l.io.no_timer;
          socket = l.io.socket;
          directed = l.io.directed;
          unsent = λ w. (let fits = l.fits.0 in let more = l.io.unsent w in ground arith);
          can_send = l.io.can_send;
          reopens = l.io.reopens;
        };
        writes = l.writes;
        addr = l.addr;
        addr_is = l.addr_is;
        fits = subst (λ k. Fits k ws) (minus (length c.full_write) c.full_write_pos n) l.fits.1;
      },
    )
  ]
    where
      moved : Connection P → ℕ → Connection P
      moved c n = record c { full_write_pos = c.full_write_pos + n; stats = record_write c.stats n }

  after_write-Rounds :
      (ws : List Wrote) (c : Connection P) (w : Wrote)
      → Loop (w ∷ ws) c
      → Rounds ws (after_write http conf a c w.0 w.1)
  after_write-Rounds ws c (StatusOr.failed s, n) l = ends ws _ (
      write_done-Goes http conf a (stop_io http conf c) true
        (record {
          stopped = refl;
          no_timer = l.io.no_timer;
          socket = inl l.io.socket;
          can_send = l.io.can_send;
        })
        l.io.socket l.addr l.addr_is)
  after_write-Rounds ws c (StatusOr.value IoStatus.ok, n) l = wrote_some ws c n l
  after_write-Rounds ws c (StatusOr.value IoStatus.feof, n) l = (
    (true, c),
    refl,
    record { io = l.io; writes = l.writes; addr = l.addr; addr_is = l.addr_is; fits = l.fits },
  )
  after_write-Rounds ws c (StatusOr.value IoStatus.need_write, n) l =
      (_, refl, inl (turned_if http conf a c false Direction.for_write l.io (rw (l.writes) refl)))
  after_write-Rounds ws c (StatusOr.value IoStatus.need_read, n) l =
      (_, refl, inl (turned_unless http conf a c true Direction.for_read l.io (rw (l.writes) refl)))

  may_write :
      (c : Connection P)
      → Io c
      → c.io.handler ≡ Handler.write_ready
      → (not c.has_socket || (length c.full_write - c.full_write_pos == 0)) ≡ false
  may_write c i h = let some_left = i.unsent h in let open_socket = i.socket in ground arith

  single_write-Rounds :
      (ws : List Wrote) (c : Connection P) (w : Wrote)
      → Loop (w ∷ ws) c
      → Rounds ws (single_write http conf a c w.0 w.1)
  unfolding single_write
  single_write-Rounds ws c w l =
      subst (Rounds ws) (sym (if-false _ _ _ (may_write c l.io l.writes)))
        (after_write-Rounds ws c w l)

  continue :
      (ws : List Wrote)
      → ((d : Connection P) → Loop ws d → Goes conf (write_ready http conf a ws d))
      → (p : Bool × Connection P) → Round ws p
      → Goes conf (go_on http conf (write_ready http conf a ws) p)
  continue ws ih (true, d) r = ih d r
  continue ws ih (false, d) r = (d, refl, r)

  through :
      (ws : List Wrote) (r : Option (Bool × Connection P))
      → ((d : Connection P) → Loop ws d → Goes conf (write_ready http conf a ws d))
      → Rounds ws r
      → Goes conf (r >>= go_on http conf (write_ready http conf a ws))
  through ws r ih (p, e, q) =
      subst (λ o. Goes conf (o >>= go_on http conf (write_ready http conf a ws))) (sym e)
        (continue ws ih p q)

  blocked :
      (c : Connection P)
      → Loop (would_block ∷ []) c
      → Goes conf (write_ready http conf a (would_block ∷ []) c)
  unfolding write_ready single_write
  blocked c l =
      subst (λ o. Goes conf (o >>= go_on http conf (write_ready http conf a [])))
        (sym (if-false _ _ _ (may_write c l.io l.writes)))
        (_, refl, inl (turned_if http conf a c false Direction.for_write l.io (rw (l.writes) refl)))

  Loop-Goes :
      (ws : List Wrote) (c : Connection P)
      → Loop (ws ++ (would_block ∷ [])) c
      → Goes conf (write_ready http conf a (ws ++ (would_block ∷ [])) c)
  unfolding write_ready
  Loop-Goes [] c l = blocked c l
  Loop-Goes (w ∷ ws) c l =
      through (ws ++ (would_block ∷ [])) (single_write http conf a c w.0 w.1) (Loop-Goes ws)
        (single_write-Rounds (ws ++ (would_block ∷ [])) c w l)

  Fits-blocked : (n : ℕ) (ws : List Wrote) → Fits n ws → Fits n (ws ++ (would_block ∷ []))
  Fits-blocked n [] h = tt
  Fits-blocked n ((StatusOr.value IoStatus.ok, k) ∷ ws) h = (h.0, Fits-blocked (n - k) ws h.1)
  Fits-blocked n ((StatusOr.value IoStatus.feof, k) ∷ ws) h = Fits-blocked n ws h
  Fits-blocked n ((StatusOr.value IoStatus.need_read, k) ∷ ws) h = Fits-blocked n ws h
  Fits-blocked n ((StatusOr.value IoStatus.need_write, k) ∷ ws) h = Fits-blocked n ws h
  Fits-blocked n ((StatusOr.failed s, k) ∷ ws) h = Fits-blocked n ws h

  -- For a connection that waits to write, whose URL has an address of a known family, and a socket
  -- that never writes more than it is given: the loop of writeReady ends, at the latest where the
  -- socket takes nothing more, fails no assertion, and leaves the connection waiting for its
  -- socket or its timer, or closed for good.
  pub write_ready-Goes :
      (c : Connection P) (ws : List Wrote) (addr : Address)
      → Io c
      → c.io.handler ≡ Handler.write_ready
      → address c.url conf.index ≡ some addr
      → Fits (length c.full_write - c.full_write_pos) ws
      → Goes conf (write_ready http conf a (ws ++ (would_block ∷ [])) c)
  write_ready-Goes c ws addr i h e f = Loop-Goes ws c (record {
    io = i;
    writes = h;
    addr = addr;
    addr_is = e;
    fits = Fits-blocked (length c.full_write - c.full_write_pos) ws f;
  })
