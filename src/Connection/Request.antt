-- ===== src/Connection/Request.antt =====
-- apib/apib_iothread.cc, writeRequest: what is sent, against the request that is meant.
use apib.Prelude.{
  ◌<◌, ◌≤◌, ◌≡◌, ◌≢◌, refl, ap, true, false, ◌++◌, Bytes, append-nil, length, drop, drop-all,
  length-append, length-drop, arith,
}
use apib.Connection.{ThreadConf, Answers, Connection, request, rewrite, write_request}

rewrite-longer : (held text : Bytes) → length held ≤ length text → rewrite held text ≡ text
rewrite-longer held text h = rw (drop-all (length text) held h) (append-nil text)

rewrite-shorter : (held text : Bytes) → length text < length held → rewrite held text ≢ text
rewrite-shorter held text h e = omega (
  arith,
  ap length e,
  length-append text (drop (length text) held),
  length-drop (length text) held,
)

-- A request that has to be written and is at least as long as all that the stream held is sent as
-- it is meant, from its first byte.
pub write_request-longer :
    {P : Type 0} (conf : ThreadConf) (a : Answers) (c : Connection P)
    → c.write_dirty ≡ true
    → length c.write_buf ≤ length (request conf c.url a.auth_header)
    → let s = write_request conf a c in
      (s.full_write ≡ request conf c.url a.auth_header)
      × (s.full_write_pos ≡ 0)
      × (s.write_dirty ≡ false)
unfolding write_request
write_request-longer conf a c d h =
    (rw d (rewrite-longer c.write_buf (request conf c.url a.auth_header) h), rw d refl, rw d refl)

-- A request that has to be written and is shorter than what the stream held is followed by the
-- rest of that text, and so is not what is meant.
pub write_request-stale :
    {P : Type 0} (conf : ThreadConf) (a : Answers) (c : Connection P)
    → c.write_dirty ≡ true
    → length (request conf c.url a.auth_header) < length c.write_buf
    → let text = request conf c.url a.auth_header in
      let s = write_request conf a c in
      (s.full_write ≡ text ++ drop (length text) c.write_buf) × (s.full_write ≢ text)
unfolding write_request
write_request-stale conf a c d h =
    (rw d refl, rw d (rewrite-shorter c.write_buf (request conf c.url a.auth_header) h))
