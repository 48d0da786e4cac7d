-- ===== src/Socket/Results.antt =====
-- apib/socket.cc and apib/tlssocket.cc: what the results of a read and a write promise.
use apib.Prelude.{
  ℕ, ◌≡◌, ◌↔◌, refl, Bool, true, false, Option, none, some, Bytes, inl, inr, ◌==◌, Bool-cases,
}
use apib.Status.{Status, StatusOr}
use apib.Connection.{IoStatus}
use apib.Socket.{Answer, SslError, SslAnswer, write, read, tls_read, read_error}

-- `ok` of a plain socket: the system transferred that many bytes
abbrev pub Transferred : Answer → StatusOr IoStatus × Option ℕ → Type 0
Transferred r (StatusOr.value IoStatus.ok, n) = (k : ℕ) × (r ≡ Answer.result k) × (n ≡ some k)
Transferred r (StatusOr.value IoStatus.feof, n) = ⊥
Transferred r (_, n) = (n ≡ none) × (errno : ℕ) × (r ≡ Answer.error errno)

-- A write or a read of a plain socket is `ok` exactly with the count of the system, and stores no
-- count otherwise; it never reports an end of file.
pub transfer-Transferred :
    (strerror : ℕ → Bytes) (r : Answer)
    → Transferred r (write strerror r) × Transferred r (read strerror r)
unfolding write read
transfer-Transferred strerror (Answer.result n) = ((n, refl, refl), (n, refl, refl))
transfer-Transferred strerror (Answer.error errno) = elim (Bool-cases (errno == 11)) [
  | inl again ↦ rw again ((refl, errno, refl), (refl, errno, refl))
  | inr other ↦ rw other ((refl, errno, refl), (refl, errno, refl))
]

-- What SSL_get_error says of a result that is not positive.
abbrev pub error_of : SslAnswer → Option SslError
error_of (SslAnswer.done n) = none
error_of (SslAnswer.stopped e) = some e
error_of (SslAnswer.refused e) = some e

-- the end of a TLS stream
abbrev pub IsEnd : Bool → Option SslError → Type 0
IsEnd sent (some SslError.zero_return) = Unit
IsEnd sent (some SslError.syscall) = sent ≡ true
IsEnd sent _ = ⊥

read_error-feof :
    (tls_error : SslError → Status) (sent : Bool) (e : SslError)
    → (read_error tls_error sent e ≡ StatusOr.value IoStatus.feof) ↔ IsEnd sent (some e)
read_error-feof tls_error sent SslError.want_read = (λ h. cc, λ h. absurd h)
read_error-feof tls_error sent SslError.want_write = (λ h. cc, λ h. absurd h)
read_error-feof tls_error sent SslError.zero_return = (λ _. tt, λ _. refl)
read_error-feof tls_error true SslError.syscall = (λ _. refl, λ _. refl)
read_error-feof tls_error false SslError.syscall = (λ h. cc, λ h. cc)
read_error-feof tls_error sent (SslError.other n) = (λ h. cc, λ h. absurd h)

-- A TLS read reports the end of the file exactly when the peer closed the session, or the system
-- failed it behind a shutdown that was sent.
tls_read-feof :
    (tls_error : SslError → Status) (sent : Bool) (r : SslAnswer)
    → ((tls_read tls_error sent r).0 ≡ StatusOr.value IoStatus.feof) ↔ IsEnd sent (error_of r)
unfolding tls_read
tls_read-feof tls_error sent (SslAnswer.done n) = (λ h. cc, λ h. absurd h)
tls_read-feof tls_error sent (SslAnswer.stopped e) = read_error-feof tls_error sent e
tls_read-feof tls_error sent (SslAnswer.refused e) = read_error-feof tls_error sent e
