-- ===== src/Connection/Reading.antt =====
-- apib/apib_io_basic.cc, singleRead and readReady: the loop that reads a response.
use apib.Prelude.{
  ℕ, ◌+◌, ◌-◌, ◌<◌, ◌≤◌, ◌≡◌, length-drop, length-append, refl, sym, ◌∙◌, subst, Bool, true, false,
  not, ◌||◌, Option, some, List, [], ◌∷◌, ◌++◌, Bytes, length, drop, ◌==◌, arith, inl, inr,
  Bool-cases, if-true, if-false, ◌>>=◌,
}
use apib.Status.{StatusOr}
use apib.Thread.{record_read}
use apib.Connection.{
  IoStatus, Direction, Handler, ThreadConf, Parsed, HttpParser, Connection, Answers,
}
use apib.Connection.Events.{
  read_buf_size, read_done, stop_io, go_on, after_parse, after_read, single_read, read_ready,
}
use apib.Connection.Phases.{Io, Waits, Goes, Known}
use apib.Connection.Io.{read_done-Goes, turned_if, turned_unless}

-- An answer of the socket with the bytes that it gave.
abbrev pub Got : Type 0
Got = StatusOr IoStatus × Bytes

-- the answer of a socket that has nothing more for now
abbrev pub nothing_yet : Got
nothing_yet = (StatusOr.value IoStatus.need_read, [])

-- A parser that does not fail takes a byte at least of what it is given.
abbrev pub Consumes : {P : Type 0} → HttpParser P → Type 0
Consumes {P} http =
    (p : P) (text : Bytes)
    → 0 < length text
    → (http.execute p text).failed ≡ false
    → 0 < (http.execute p text).parsed

unparsed-room :
    (n : ℕ) (text : Bytes)
    → length text ≤ read_buf_size
    → (0 < length text → 0 < n)
    → length (drop n text) < read_buf_size
unparsed-room n [] fits h = omega (arith, length-drop {A = ℕ} n [])
unparsed-room n (c ∷ text) fits h =
    let pos = h (omega arith) in omega (arith, pos, fits, length-drop n (c ∷ text))

pub Consumes-room :
    {P : Type 0} (http : HttpParser P)
    → Consumes http
    → (p : P) (text : Bytes) → length text ≤ read_buf_size
    → (http.execute p text).failed ≡ false
    → length (drop (http.execute p text).parsed text) < read_buf_size
Consumes-room http consumes p text fits good =
    unparsed-room (http.execute p text).parsed text fits (λ pos. consumes p text pos good)

-- The socket never gives more bytes than the buffer has room for.
abbrev pub ReadsFit :
    {P : Type 0} → HttpParser P → ThreadConf → Answers → List Got → Connection P → Type 0
ReadsFit http conf a [] c = Unit
ReadsFit {P} http conf a (g ∷ gs) c =
    (length c.unparsed + length g.1 ≤ read_buf_size)
    × ((d : Connection P)
        → single_read http conf a c g.0 g.1 ≡ some (true, d)
        → ReadsFit http conf a gs d)

module _ {P : Type 0} (http : HttpParser P) (conf : ThreadConf) (a : Answers)
    (consumes : Consumes http) where
  -- in the loop: the watcher of the read, room in the buffer, and addresses that are known
  record Loop (c : Connection P) : Type 0 where
    io : Io c
    reads : c.io.handler ≡ Handler.read_ready
    room : length c.unparsed < read_buf_size
    known : Known conf c.url a.next_url

  abbrev Round : Bool × Connection P → Type 0
  Round (true, d) = Loop d
  Round (false, d) = Waits conf d

  abbrev Rounds : Option (Bool × Connection P) → Type 0
  Rounds r = (p : Bool × Connection P) × (r ≡ some p) × Round p

  ends : (r : Option (Connection P)) → Goes conf r → Rounds (r >>= λ d. some (false, d))
  ends r (d, e, w) = ((false, d), rw e refl, w)

  -- ReadDone behind the stop of the watcher
  done :
      (c : Connection P) (failed : Bool)
      → Loop c
      → Rounds (read_done http conf a failed (stop_io http conf c) >>= λ d. some (false, d))
  done c failed l = ends _ (
      read_done-Goes http conf a (stop_io http conf c) failed
        (record {
          stopped = refl;
          no_timer = l.io.no_timer;
          socket = inl l.io.socket;
          can_send = l.io.can_send;
        })
        l.io.socket l.known)

  -- the connection behind a parse
  abbrev parsed_as : Connection P → Parsed P → Connection P
  parsed_as c p = record c { parser = p.parser; read_done = c.read_done || p.complete }

  same_Loop :
      (c : Connection P) (p : Parsed P) (rest : Bytes)
      → Loop c
      → length rest < read_buf_size
      → Loop (record (parsed_as c p) { unparsed = rest })
  same_Loop c p rest l h = record {
    io = record {
      active = l.io.active;
      no_timer = l.io.no_timer;
      socket = l.io.socket;
      directed = l.io.directed;
      unsent = l.io.unsent;
      can_send = l.io.can_send;
      reopens = l.io.reopens;
    };
    reads = l.reads;
    room = h;
    known = l.known;
  }

  after_parse-Rounds :
      (c : Connection P) (text : Bytes) (p : Parsed P)
      → Loop c
      → (p.failed ≡ false → length (drop p.parsed text) < read_buf_size)
      → Rounds (after_parse http conf a c text p)
  after_parse-Rounds c text p l h = elim (Bool-cases p.failed) [
    | inl bad ↦
        subst Rounds (sym (if-true _ _ _ bad))
          (done (parsed_as c p) true (same_Loop c p c.unparsed l l.room))
    | inr good ↦
        (let whole = same_Loop c p (drop p.parsed text) l (h good) in
          elim (Bool-cases (c.read_done || p.complete)) [
            | inl all ↦
                subst Rounds (sym (if-false _ _ _ good ∙ if-true _ _ _ all))
                  (done (record (parsed_as c p) { unparsed = drop p.parsed text }) false whole)
            | inr part ↦
                subst Rounds (sym (if-false _ _ _ good ∙ if-false _ _ _ part))
                  ((true, _), refl, whole)
          ])
  ]

  counted :
      (c : Connection P) (got : Bytes)
      → Loop c
      → Loop (record c { stats = record_read c.stats (length got) })
  counted c got l = record {
    io = record {
      active = l.io.active;
      no_timer = l.io.no_timer;
      socket = l.io.socket;
      directed = l.io.directed;
      unsent = l.io.unsent;
      can_send = l.io.can_send;
      reopens = l.io.reopens;
    };
    reads = l.reads;
    room = l.room;
    known = l.known;
  }

  after_read-Rounds :
      (c : Connection P) (g : Got)
      → Loop c
      → length c.unparsed + length g.1 ≤ read_buf_size
      → Rounds (after_read http conf a c g.0 g.1)
  after_read-Rounds c (StatusOr.failed s, got) l fits = done c true l
  after_read-Rounds c (StatusOr.value IoStatus.ok, got) l fits =
      after_parse-Rounds _ (c.unparsed ++ got) (http.execute c.parser (c.unparsed ++ got))
        (counted c got l)
        (Consumes-room http consumes c.parser (c.unparsed ++ got)
          (omega (arith, fits, length-append c.unparsed got)))
  after_read-Rounds c (StatusOr.value IoStatus.feof, got) l fits = done c (not c.read_done) l
  after_read-Rounds c (StatusOr.value IoStatus.need_read, got) l fits =
      (_, refl, inl (turned_if http conf a c false Direction.for_read l.io (rw (l.reads) refl)))
  after_read-Rounds c (StatusOr.value IoStatus.need_write, got) l fits =
      (_, refl, inl (turned_unless http conf a c true Direction.for_write l.io (rw (l.reads) refl)))

  may_read :
      (c : Connection P)
      → Loop c
      → (not c.has_socket || (read_buf_size - length c.unparsed == 0)) ≡ false
  may_read c l = let room = l.room in let open_socket = l.io.socket in ground arith

  single_read-Rounds :
      (c : Connection P) (g : Got)
      → Loop c
      → length c.unparsed + length g.1 ≤ read_buf_size
      → Rounds (single_read http conf a c g.0 g.1)
  unfolding single_read
  single_read-Rounds c g l fits =
      subst Rounds (sym (if-false _ _ _ (may_read c l))) (after_read-Rounds c g l fits)

  continue :
      (rs : List Got) (r : Option (Bool × Connection P))
      → ((d : Connection P) → r ≡ some (true, d) → Loop d → Goes conf (read_ready http conf a rs d))
      → (p : Bool × Connection P) → r ≡ some p
      → Round p
      → Goes conf (go_on http conf (read_ready http conf a rs) p)
  continue rs r ih (true, d) e l = ih d e l
  continue rs r ih (false, d) e w = (d, refl, w)

  through :
      (rs : List Got) (r : Option (Bool × Connection P))
      → ((d : Connection P) → r ≡ some (true, d) → Loop d → Goes conf (read_ready http conf a rs d))
      → Rounds r
      → Goes conf (r >>= go_on http conf (read_ready http conf a rs))
  through rs r ih (p, e, q) =
      subst (λ o. Goes conf (o >>= go_on http conf (read_ready http conf a rs))) (sym e)
        (continue rs r ih p e q)

  Loop-Goes :
      (rs : List Got) (c : Connection P)
      → Loop c
      → ReadsFit http conf a (rs ++ (nothing_yet ∷ [])) c
      → Goes conf (read_ready http conf a (rs ++ (nothing_yet ∷ [])) c)
  unfolding read_ready single_read
  Loop-Goes [] c l fits =
      subst (λ o. Goes conf (o >>= go_on http conf (read_ready http conf a [])))
        (sym (if-false _ _ _ (may_read c l)))
        (_, refl, inl (turned_if http conf a c false Direction.for_read l.io (rw (l.reads) refl)))
  Loop-Goes (g ∷ rs) c l fits =
      through (rs ++ (nothing_yet ∷ [])) (single_read http conf a c g.0 g.1)
        (λ d e l'. Loop-Goes rs d l' (fits.1 d e)) (single_read-Rounds c g l fits.0)

  pub read_ready-Goes :
      (c : Connection P) (rs : List Got)
      → Io c
      → c.io.handler ≡ Handler.read_ready
      → length c.unparsed < read_buf_size
      → Known conf c.url a.next_url
      → ReadsFit http conf a (rs ++ (nothing_yet ∷ [])) c
      → Goes conf (read_ready http conf a (rs ++ (nothing_yet ∷ [])) c)
  read_ready-Goes c rs i h room k fits =
      Loop-Goes rs c (record { io = i; reads = h; room = room; known = k }) fits
