-- ===== src/Connection/Winding/Ends.antt =====
-- A connection of apib/apib_iothread.cc from the moment its thread was told to stop: its events lead
-- towards its end.
use apib.Prelude.{◌≤◌, ◌≡◌, refl, sym, ◌∙◌, ap, subst, false, Option, some, [], ◌∷◌, ◌++◌, arith}
use apib.Url.{UrlInfo}
use apib.Connection.{ThreadConf, HttpParser, Connection}
use apib.Connection.Events.{stop_running}
use apib.Connection.Phases.{Io, Waits, Known}
use apib.Connection.Frame.{Kept}
use apib.Connection.Room.{Fit}
use apib.Connection.Writing.{would_block}
use apib.Connection.Reading.{Consumes, nothing_yet}
use apib.Connection.Life.{running, Step, Step-Lives, some-Waits, active-Io}
use apib.Connection.Winding.{handler_rank, rank, AtMost, any-AtMost}
use apib.Connection.Winding.Rounds.{write_ready-AtMost, read_ready-AtMost, complete_shutdown-AtMost}

module _ {P : Type 0} where
  Io-rank : (c : Connection P) → Io c → rank c ≡ handler_rank c.io.handler
  Io-rank c i = rw (i.no_timer, i.active) refl

module _ {P : Type 0} (http : HttpParser P) (conf : ThreadConf) (S : UrlInfo → Type 0) where
  -- from one connection to a later one, by events in a thread that was told to stop
  pub data Later (c : Connection P) : Connection P → Type 0 where
    here : Later c c
    more : {d e : Connection P} → Later c d → Step http conf S false d (some e) → Later c e

  module _ (known : (u v : UrlInfo) → S u → S v → Known conf u v) (consumes : Consumes http) where
    Step-AtMost :
        (c : Connection P) (o : Option (Connection P))
        → Waits (running http conf S false) c
        → Step http conf S false c o
        → AtMost (rank c) o
    unfolding stop_running
    Step-AtMost c o w (Step.timer a delay s e f) =
        let r : rank c ≡ 4 = rw e refl in subst (λ n. AtMost n o) (sym r) (any-AtMost o)
    Step-AtMost c o w (Step.writable a ws s e h fits f) =
        let i = active-Io http conf S known consumes false c w e in
        let r : rank c ≡ 3 = Io-rank c i ∙ ap handler_rank h in
        subst (λ n. AtMost n o) (sym r)
          (subst (AtMost 3) (sym f) (
            write_ready-AtMost http (running http conf S false) a refl (ws ++ (would_block ∷ [])) c
              (i.no_timer, h)))
    Step-AtMost c o w (Step.readable a rs s e h fits f) =
        let i = active-Io http conf S known consumes false c w e in
        let r : rank c ≡ 2 = Io-rank c i ∙ ap handler_rank h in
        subst (λ n. AtMost n o) (sym r)
          (subst (AtMost 2) (sym f) (
            read_ready-AtMost http (running http conf S false) a refl (rs ++ (nothing_yet ∷ [])) c
              (i.no_timer, h)))
    Step-AtMost c o w (Step.shut a r s e h f) =
        let i = active-Io http conf S known consumes false c w e in
        let q : rank c ≡ 1 = Io-rank c i ∙ ap handler_rank h in
        subst (λ n. AtMost n o) (sym q)
          (subst (AtMost 1) (sym f)
            (complete_shutdown-AtMost http (running http conf S false) a refl c r (i.no_timer, h)))
    Step-AtMost c o w (Step.asked f) = subst (AtMost (rank c)) (sym f) (omega arith)

    -- In a thread that was told to stop, for a connection that waits, with room in its buffer,
    -- URLs whose addresses are of known families, and a parser that takes a byte at least of what
    -- it is given unless it fails: no sequence of events, with writes of no more than is given and
    -- reads of no more than the buffer has room for, takes it back from the shutdown to a read,
    -- from a read to a write, or from a write to its timer, so that it starts no further request
    -- behind a response, and all of them leave it waiting or closed for good.
    pub Later-rank :
        (c : Connection P)
        → Waits (running http conf S false) c
        → Kept (Fit S) c
        → {e : Connection P} → Later c e
        → Waits (running http conf S false) e × Kept (Fit S) e × (rank e ≤ rank c)
    Later-rank c w k here = (w, k, omega arith)
    Later-rank c w k (more {d} {e} l st) =
        let (w', k', r) = Later-rank c w k l in
        let (w'', k'') =
          some-Waits http conf S known consumes false e
            (Step-Lives http conf S known consumes false d (some e) w' k' st) in
        let m : rank e ≤ rank d = Step-AtMost d (some e) w' st in (w'', k'', omega (arith, r, m))
