-- ===== src/Socket/Tests.antt =====
-- The theorems on sockets at concrete inputs.
use apib.Prelude.{ℕ, ◌≡◌, refl, false, Option, some, none, [], ◌∷◌, Bytes}
use apib.Status.{Code, Status, is_ok}
use apib.Socket.{new_socket, Answer, ConnectAnswers, SslError, connect, destroy}
use apib.Socket.Closing.{connect-closes_twice}

abbrev no_text : ℕ → Bytes
no_text errno = []

-- descriptor 5, and what ::connect gives
abbrev answers : Option ℕ → ConnectAnswers
answers c = record {
  socket = Answer.result 5;
  nodelay = none;
  reuseaddr = none;
  linger = none;
  nonblock = none;
  connect = c;
  errno = 0;
}

connect-closes_twice_example :
    let r = connect no_text (answers (some 111)) new_socket in
    (is_ok r.0 ≡ false) × ((destroy r.1).closes ≡ some 5 ∷ some 5 ∷ [])
connect-closes_twice_example = connect-closes_twice no_text (answers (some 111)) 4 111 refl refl

abbrev tls_error : SslError → Status
tls_error e = record { code = Code.tls_error; msg = [] }
