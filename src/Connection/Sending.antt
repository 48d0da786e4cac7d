-- ===== src/Connection/Sending.antt =====
-- apib/apib_io_basic.cc, singleWrite and writeReady: a request that the socket takes in pieces.
use apib.Prelude.{
  ℕ, ◌+◌, ◌-◌, ◌<◌, ◌≡◌, refl, sym, ap, ◌∙◌, true, false, not, ◌||◌, Option, none, some, List, [],
  ◌∷◌, ◌++◌, map, length, ◌==◌, arith, All, if-true, if-false, ◌>>=◌,
}
use apib.Status.{StatusOr}
use apib.Thread.{record_write}
use apib.Connection.{IoStatus, ThreadConf, HttpParser, Connection, Answers}
use apib.Connection.Events.{write_done, stop_io, go_on, single_write, write_ready}
use apib.Connection.Writing.{Wrote}

abbrev pub sum : List ℕ → ℕ
sum [] = 0
sum (n ∷ ns) = n + sum ns

-- the socket wrote that many bytes
abbrev pub wrote : ℕ → Wrote
wrote n = (StatusOr.value IoStatus.ok, n)

module _ {P : Type 0} (http : HttpParser P) (conf : ThreadConf) (a : Answers) where
  -- a connection that has written `n` more bytes
  abbrev pub moved : Connection P → ℕ → Connection P
  moved c n = record c { full_write_pos = c.full_write_pos + n; stats = record_write c.stats n }

  ended :
      (more : Connection P → Option (Connection P)) (o : Option (Connection P))
      → ((o >>= λ e. some (false, e)) >>= go_on http conf more) ≡ o
  ended more none = refl
  ended more (some e) = refl

  may_write :
      (c : Connection P)
      → c.has_socket ≡ true
      → c.full_write_pos < length c.full_write
      → (not c.has_socket || (length c.full_write - c.full_write_pos == 0)) ≡ false
  may_write c h l = ground arith

  last_piece :
      (c : Connection P) (n : ℕ) (ws : List Wrote)
      → c.has_socket ≡ true
      → c.full_write_pos < length c.full_write
      → c.full_write_pos + n ≡ length c.full_write
      → write_ready http conf a (wrote n ∷ ws) c
        ≡ write_done http conf a false (stop_io http conf (moved c n))
  unfolding write_ready single_write
  last_piece c n ws h l e =
      let whole : (c.full_write_pos + n == length c.full_write) ≡ true = ground arith in
      ap (λ o. o >>= go_on http conf (write_ready http conf a ws))
        (if-false _ _ _ (may_write c h l) ∙ if-true _ _ _ whole)
      ∙ ended (write_ready http conf a ws)
          (write_done http conf a false (stop_io http conf (moved c n)))

  one_piece :
      (c : Connection P) (n : ℕ) (ws : List Wrote)
      → c.has_socket ≡ true
      → c.full_write_pos + n < length c.full_write
      → write_ready http conf a (wrote n ∷ ws) c ≡ write_ready http conf a ws (moved c n)
  unfolding write_ready single_write
  one_piece c n ws h l =
      let part : (c.full_write_pos + n == length c.full_write) ≡ false = ground arith in
      ap (λ o. o >>= go_on http conf (write_ready http conf a ws))
        (if-false _ _ _ (may_write c h (omega arith)) ∙ if-false _ _ _ part)

  moved_twice : (c : Connection P) (n m : ℕ) → moved (moved c n) m ≡ moved c (n + m)
  unfolding record_write
  moved_twice c n m = λ i. record c {
    full_write_pos = positions i;
    stats = record (c.stats) { bytes_written = bytes i };
  }
    where
      positions : c.full_write_pos + n + m ≡ c.full_write_pos + (n + m)
      positions = omega arith

      bytes : c.stats.bytes_written + n + m ≡ c.stats.bytes_written + (n + m)
      bytes = omega arith

  -- For a connection with a socket and something left to write, that the socket takes in pieces,
  -- none of them empty: behind the last piece WriteDone is called once without an error, every
  -- byte is counted once, and the socket is not asked again.
  pub write_ready-pieces :
      (c : Connection P) (ns : List ℕ) (more : List Wrote)
      → c.has_socket ≡ true
      → c.full_write_pos < length c.full_write
      → All (λ n. 0 < n) ns
      → c.full_write_pos + sum ns ≡ length c.full_write
      → write_ready http conf a (map wrote ns ++ more) c
        ≡ write_done http conf a false (stop_io http conf (moved c (sum ns)))
  write_ready-pieces c [] more h l pos e = absurd (omega arith)
  write_ready-pieces c (n ∷ []) more h l pos e =
      let plus : n + 0 ≡ n = omega arith in
      last_piece c n more h l (omega arith)
      ∙ ap (λ k. write_done http conf a false (stop_io http conf (moved c k))) (sym plus)
  write_ready-pieces c (n ∷ m ∷ ns) more h l pos e =
      let part : c.full_write_pos + n < length c.full_write = omega (arith, pos.1.0) in
      one_piece c n (map wrote (m ∷ ns) ++ more) h part
      ∙ write_ready-pieces (moved c n) (m ∷ ns) more h part pos.1 (omega arith)
      ∙ ap (λ d. write_done http conf a false (stop_io http conf d))
          (moved_twice c n (sum (m ∷ ns)))
