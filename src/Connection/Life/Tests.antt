-- ===== src/Connection/Life/Tests.antt =====
-- The theorems on the life of a connection at a concrete connection and its events.
use apib.Prelude.{◌≤◌, ◌≡◌, refl, sym, subst, true, false, some, Bytes, codes, [], arith, inl}
use apib.Status.{StatusOr}
use apib.Url.{UrlInfo}
use apib.Connection.{IoStatus, Direction, Handler, Connection}
use apib.Connection.Events.{write_ready, complete_shutdown, close_done}
use apib.Connection.Phases.{Waits, Known}
use apib.Connection.Frame.{Kept}
use apib.Connection.Room.{Fit}
use apib.Connection.Life.{running, Step, Life}
use apib.Connection.Winding.{rank}
use apib.Connection.Winding.Ends.{Later, Later-rank}
use apib.Connection.Tests.{parser, conf, url, answers, connection, closing, known, parser-Consumes}

-- a list of one URL
abbrev Listed : UrlInfo → Type 0
Listed u = u ≡ url

listed_known : (u v : UrlInfo) → Listed u → Listed v → Known conf u v
listed_known u v p q =
    subst (λ x. Known conf x v) (sym p) (subst (λ x. Known conf url x) (sym q) known)

-- as the constructor leaves it
abbrev new : Connection Unit
new = record (connection []) { has_socket = false }

abbrev text : Bytes
text = codes "GET / HTTP/1.1\r\nUser-Agent: apib\r\nHost: a\r\n\r\n"

-- behind StartConnect
abbrev sending : Connection Unit
sending = record new {
  has_socket = true;
  needs_open = true;
  url_id = 2;
  write_buf = text;
  full_write = text;
  write_dirty = false;
  io = record { handler = Handler.write_ready; direction = Direction.for_write; active = true };
  start_time = 10;
  opened = 2;
}

-- behind the shutdown
abbrev closed : Connection Unit
closed = record closing {
  has_socket = false;
  io = record {
    handler = Handler.complete_shutdown;
    direction = Direction.for_read;
    active = false;
  };
}

closes :
    some closed
    ≡ complete_shutdown parser
        (running parser conf Listed false)
        answers
        closing
        (StatusOr.value IoStatus.feof)
unfolding complete_shutdown close_done
closes = refl

closing-Waits : Waits (running parser conf Listed false) closing
closing-Waits = inl (record {
  active = refl;
  no_timer = refl;
  socket = refl;
  directed = refl;
  unsent = λ h. cc;
  can_send = λ h. cc;
  reopens = λ h. refl;
})

Later-rank_example :
    Waits (running parser conf Listed false) closed
    × Kept (Fit Listed) closed
    × (rank closed ≤ rank closing)
Later-rank_example =
    Later-rank parser conf Listed listed_known parser-Consumes closing closing-Waits
      (refl, omega arith)
      (Later.more Later.here
        (Step.shut answers (StatusOr.value IoStatus.feof) refl refl refl closes))
