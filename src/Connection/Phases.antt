-- ===== src/Connection/Phases.antt =====
-- What a connection of apib/apib_iothread.cc waits for between two events, as an invariant.
use apib.Prelude.{
  ℕ, ◌<◌, ◌≡◌, refl, Bool, true, false, not, ◌&&◌, Option, none, some, ◌∷◌, ◌++◌, Bytes, length,
  length-append, arith, ◌⊎◌, inl, inr, Bool-cases,
}
use apib.Addresses.{Address}
use apib.Url.{UrlInfo, address, is_same_server}
use apib.Connection.{
  Direction, Handler, ThreadConf, Connection, Answers, request, rewrite, write_request,
}

-- the direction of the watcher, for its callback and the flag backwardsIo_
abbrev pub expected : Handler → Bool → Direction
expected Handler.write_ready false = Direction.for_write
expected Handler.write_ready true = Direction.for_read
expected _ false = Direction.for_read
expected _ true = Direction.for_write

module _ {P : Type 0} where
  -- whatever is not written anew is there to be sent again
  abbrev pub CanSend : Connection P → Type 0
  CanSend c = (c.write_dirty ≡ false) → 0 < length c.full_write

  -- as the constructor leaves a connection: nothing waits, and a request has to be written
  pub record Fresh (c : Connection P) : Type 0 where
    pub stopped : c.io.active ≡ false
    pub no_timer : c.timer ≡ none
    pub dirty : c.write_dirty ≡ true

  -- within an event: nothing waits, and there is a socket or it will be opened
  pub record Idle (c : Connection P) : Type 0 where
    pub stopped : c.io.active ≡ false
    pub no_timer : c.timer ≡ none
    pub socket : (c.has_socket ≡ true) ⊎ (c.needs_open ≡ true)
    pub can_send : CanSend c

  -- between events, waiting for the socket
  pub record Io (c : Connection P) : Type 0 where
    pub active : c.io.active ≡ true
    pub no_timer : c.timer ≡ none
    pub socket : c.has_socket ≡ true
    pub directed : c.io.direction ≡ expected c.io.handler c.backwards_io
    pub unsent : c.io.handler ≡ Handler.write_ready → c.full_write_pos < length c.full_write
    pub can_send : CanSend c
    pub reopens : c.io.handler ≡ Handler.complete_shutdown → c.needs_open ≡ true

  pub record Thinking (c : Connection P) : Type 0 where
    pub stopped : c.io.active ≡ false
    pub delay : ℕ
    pub timer : c.timer ≡ some delay
    pub socket : (c.has_socket ≡ true) ⊎ (c.needs_open ≡ true)
    pub can_send : CanSend c

  pub record Over (conf : ThreadConf) (c : Connection P) : Type 0 where
    pub stopped : c.io.active ≡ false
    pub no_timer : c.timer ≡ none
    pub no_socket : c.has_socket ≡ false
    pub asked_to_stop : (c.keep_running && conf.keep_running) ≡ false

  abbrev pub Waits : ThreadConf → Connection P → Type 0
  Waits conf c = Io c ⊎ (Thinking c ⊎ Over conf c)

  -- a handler ends, and leaves the connection waiting
  abbrev pub Goes : ThreadConf → Option (Connection P) → Type 0
  Goes conf r = (c : Connection P) × (r ≡ some c) × Waits conf c

-- The families of these addresses are known to the code.
pub record Known (conf : ThreadConf) (u v : UrlInfo) : Type 0 where
  pub old : Address
  pub old_is : address u conf.index ≡ some old
  pub new : Address
  pub new_is : address v conf.index ≡ some new
  pub same : Bool
  pub same_is : is_same_server u v conf.index ≡ some same

nonempty : (xs : Bytes) (y : ℕ) (ys zs ws : Bytes) → 0 < length (((xs ++ (y ∷ ys)) ++ zs) ++ ws)
nonempty xs y ys zs ws = omega (
  arith,
  length-append ((xs ++ (y ∷ ys)) ++ zs) ws,
  length-append (xs ++ (y ∷ ys)) zs,
  length-append xs (y ∷ ys),
)

request-nonempty :
    (conf : ThreadConf) (url : UrlInfo) (auth held : Bytes)
    → 0 < length (rewrite held (request conf url auth))
unfolding request
request-nonempty conf url auth held = nonempty conf.http_verb _ _ _ _

-- what writeRequest changes
pub record Written {P : Type 0} (c d : Connection P) : Type 0 where
  pub buf : Bytes
  pub full : Bytes
  pub dirty : Bool
  pub is :
      d ≡ record c { write_buf = buf; full_write = full; full_write_pos = 0; write_dirty = dirty }
  pub some_bytes : 0 < length full

pub write_request-Written :
    {P : Type 0} (conf : ThreadConf) (a : Answers) (c : Connection P)
    → CanSend c
    → Written c (write_request conf a c)
unfolding write_request
write_request-Written conf a c h = elim (Bool-cases (not c.write_dirty && not conf.oauth)) [
  | inl same ↦ record {
    buf = c.write_buf;
    full = c.full_write;
    dirty = c.write_dirty;
    is = rw same refl;
    some_bytes = h (ground arith);
  }
  | inr fresh ↦ record {
    buf = rewrite c.write_buf (request conf c.url a.auth_header);
    full = rewrite c.write_buf (request conf c.url a.auth_header);
    dirty = false;
    is = rw fresh refl;
    some_bytes = request-nonempty conf c.url a.auth_header c.write_buf;
  }
]
