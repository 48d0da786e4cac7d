-- ===== src/Socket.antt =====
-- apib/socket.h, apib/socket.cc and apib/tlssocket.cc: a socket, and what the calls of the system
-- and of OpenSSL mean for its callers. What those calls give is an argument; `closes` lists the
-- descriptors that ::close was called on.
pub mod Closing
pub mod Tls
pub mod Results
mod Tests
use apib.Prelude.{
  ℕ, zero, suc, ◌+◌, ◌-◌, ◌<◌, ◌≤◌, ◌≡◌, Bool, true, false, not, ◌&&◌, ◌||◌, Option, none, some,
  List, [], ◌∷◌, ◌++◌, Bytes, ltb, ◌==◌, if◌then◌else◌,
}
use apib.Status.{Code, Status, ok_status, is_ok, StatusOr}
use apib.Connection.{IoStatus}

-- fd_: none is -1
pub record Socket : Type 0 where
  pub fd : Option ℕ
  pub closes : List (Option ℕ)

-- Socket()
abbrev pub new_socket : Socket
new_socket = record { fd = some 0; closes = [] }

-- What a call of the system gives: an error number, or a result that is not negative.
pub data Answer : Type 0 where
  error : ℕ → Answer
  result : ℕ → Answer

abbrev eagain : ℕ
eagain = 11

abbrev pub einprogress : ℕ
einprogress = 115

-- Status(SOCKET_ERROR, errno); `strerror` is the message of the system
abbrev pub socket_error : (ℕ → Bytes) → ℕ → Status
socket_error strerror errno = record { code = Code.socket_error; msg = strerror errno }

-- The calls of connect behind socket(), in order: three options, fcntl and ::connect, each with
-- its error number or none. The first that fails decides, but for EINPROGRESS of the last one.
-- `errno` is the value that it had before.
pub record ConnectAnswers : Type 0 where
  pub socket : Answer
  pub nodelay : Option ℕ
  pub reuseaddr : Option ℕ
  pub linger : Option ℕ
  pub nonblock : Option ℕ
  pub connect : Option ℕ
  pub errno : ℕ

abbrev ignore_in_progress : Option ℕ → Option ℕ
ignore_in_progress none = none
ignore_in_progress (some errno) = if errno == einprogress then none else some errno

abbrev first_error : List (Option ℕ) → Option ℕ
first_error [] = none
first_error (none ∷ es) = first_error es
first_error (some errno ∷ es) = some errno

abbrev pub connect_error : ConnectAnswers → Option ℕ
connect_error c =
    first_error
      (c.nodelay ∷ c.reuseaddr ∷ c.linger ∷ c.nonblock ∷ ignore_in_progress c.connect ∷ [])

-- ::close(fd_)
abbrev pub close_fd : Socket → Socket
close_fd s = record s { closes = s.closes ++ (s.fd ∷ []) }

module _ (strerror : ℕ → Bytes) where
  -- behind the label `fail`
  abbrev connected : Socket → Option ℕ → Status × Socket
  connected s none = (ok_status, s)
  connected s (some errno) = (socket_error strerror errno, close_fd s)

  abbrev pub with_fd : ConnectAnswers → Socket → Answer → Status × Socket
  with_fd c s (Answer.error errno) = (socket_error strerror errno, record s { fd = none })
  with_fd c s (Answer.result zero) = (socket_error strerror c.errno, record s { fd = some 0 })
  with_fd c s (Answer.result (suc fd)) =
      connected (record s { fd = some (suc fd) }) (connect_error c)

  -- Socket::connect
  unfoldable pub connect : ConnectAnswers → Socket → Status × Socket
  connect c s = with_fd c s c.socket

  -- Socket::write and Socket::read, with the count that they store; `blocked` is what EAGAIN means
  abbrev pub transfer : IoStatus → Answer → StatusOr IoStatus × Option ℕ
  transfer blocked (Answer.error errno) =
      if errno == eagain
      then (StatusOr.value blocked, none)
      else (StatusOr.failed (socket_error strerror errno), none)
  transfer blocked (Answer.result n) = (StatusOr.value IoStatus.ok, some n)

  unfoldable pub write : Answer → StatusOr IoStatus × Option ℕ
  write ws = transfer IoStatus.need_write ws

  unfoldable pub read : Answer → StatusOr IoStatus × Option ℕ
  read rs = transfer IoStatus.need_read rs

  -- Socket::close; `failed` is the error number of ::close, or none
  unfoldable pub close : Option ℕ → Socket → StatusOr IoStatus × Socket
  close none s = (StatusOr.value IoStatus.ok, record (close_fd s) { fd = some 0 })
  close (some errno) s =
      (StatusOr.failed (socket_error strerror errno), record (close_fd s) { fd = some 0 })

abbrev is_zero : Option ℕ → Bool
is_zero none = false
is_zero (some zero) = true
is_zero (some (suc fd)) = false

-- ~Socket
unfoldable pub destroy : Socket → Socket
destroy s = if is_zero s.fd then s else close_fd s

-- What SSL_get_error says.
pub data SslError : Type 0 where
  want_read want_write zero_return syscall : SslError
  other : ℕ → SslError

-- What SSL_write, SSL_read or SSL_shutdown gives: a positive result, or one that is not, with the
-- error of it. `stopped` is a result of 0.
pub data SslAnswer : Type 0 where
  done : ℕ → SslAnswer
  stopped : SslError → SslAnswer
  refused : SslError → SslAnswer

module _ (tls_error : SslError → Status) where
  abbrev write_error : SslError → StatusOr IoStatus
  write_error SslError.want_read = StatusOr.value IoStatus.need_read
  write_error SslError.want_write = StatusOr.value IoStatus.need_write
  write_error e = StatusOr.failed (tls_error e)

  -- TLSSocket::write, and the count that it stores
  unfoldable pub tls_write : SslAnswer → StatusOr IoStatus × ℕ
  tls_write (SslAnswer.done n) = (StatusOr.value IoStatus.ok, n)
  tls_write (SslAnswer.stopped e) = (write_error e, 0)
  tls_write (SslAnswer.refused e) = (write_error e, 0)

  abbrev pub read_error : Bool → SslError → StatusOr IoStatus
  read_error sent_shutdown SslError.want_read = StatusOr.value IoStatus.need_read
  read_error sent_shutdown SslError.want_write = StatusOr.value IoStatus.need_write
  read_error sent_shutdown SslError.zero_return = StatusOr.value IoStatus.feof
  read_error sent_shutdown SslError.syscall =
      if sent_shutdown
      then StatusOr.value IoStatus.feof
      else StatusOr.failed (tls_error SslError.syscall)
  read_error sent_shutdown (SslError.other n) = StatusOr.failed (tls_error (SslError.other n))

  -- TLSSocket::read; `sent_shutdown` is the flag SSL_SENT_SHUTDOWN
  unfoldable pub tls_read : Bool → SslAnswer → StatusOr IoStatus × ℕ
  tls_read sent_shutdown (SslAnswer.done n) = (StatusOr.value IoStatus.ok, n)
  tls_read sent_shutdown (SslAnswer.stopped e) = (read_error sent_shutdown e, 0)
  tls_read sent_shutdown (SslAnswer.refused e) = (read_error sent_shutdown e, 0)

  -- TLSSocket::close: SSL_shutdown, then an SSL_read of nothing if it gave 0
  unfoldable pub tls_close : SslAnswer → Bool → SslAnswer → Socket → StatusOr IoStatus × Socket
  unfolding tls_read
  tls_close (SslAnswer.done n) sent got s =
      (StatusOr.value IoStatus.ok, record (close_fd s) { fd = some 0 })
  tls_close (SslAnswer.stopped e) sent got s = ((tls_read sent got).0, s)
  tls_close (SslAnswer.refused e) sent got s = (write_error e, s)
