-- ===== src/Socket/Tls.antt =====
-- apib/tlssocket.cc: the set-up of a TLS socket and its destructor. What OpenSSL answers is given.
use apib.Prelude.{
  ℕ, suc, ◌≡◌, refl, Bool, true, false, not, ◌&&◌, Bool-cases, inl, inr, none, some, [], ◌∷◌, Bytes,
  ◌==◌, if◌then◌else◌,
}
use apib.Status.{Status, ok_status, is_ok}
use apib.Socket.{Socket, new_socket, Answer, ConnectAnswers, connect, connect_error, destroy}

-- A socket with its SSL object, if it has one, and how many such objects were freed.
pub record TlsSocket : Type 0 where
  pub socket : Socket
  pub has_ssl : Bool
  pub freed : ℕ

abbrev pub new_tls_socket : TlsSocket
new_tls_socket = record { socket = new_socket; has_ssl = false; freed = 0 }

-- SSL_new, SSL_set_fd and SSL_set_tlsext_host_name, whose success is 1, and the error of the first
pub record SetUp : Type 0 where
  pub new_ok : Bool
  pub new_error : ℕ
  pub set_fd : ℕ
  pub set_host_name : ℕ

module _ (strerror : ℕ → Bytes) (make_tls_error : ℕ → Status) where
  abbrev with_ssl : SetUp → TlsSocket → Status × TlsSocket
  with_ssl t s =
      if not t.new_ok then (make_tls_error t.new_error, record s { has_ssl = false }) else (
        if not (t.set_fd == 1)
            then make_tls_error t.set_fd
            else if not (t.set_host_name == 1)
            then make_tls_error t.set_host_name
            else ok_status,
        record s { has_ssl = true },
      )

  -- TLSSocket::connectTLS
  unfoldable pub connect_tls : ConnectAnswers → SetUp → TlsSocket → Status × TlsSocket
  connect_tls c t s =
      let (cs, socket) = connect strerror c s.socket in
      let connected = record s { socket = socket } in
      if not (is_ok cs) then (cs, connected) else with_ssl t connected

-- ~TLSSocket, and then ~Socket
unfoldable pub tls_destroy : TlsSocket → TlsSocket
tls_destroy s = record s {
  socket = destroy s.socket;
  freed = if s.has_ssl then suc s.freed else s.freed;
}

module _ (strerror : ℕ → Bytes) (make_tls_error : ℕ → Status) where
  -- Whatever OpenSSL answers to the set-up of a socket that was connected without an error, the
  -- destructor closes its descriptor once, and frees the SSL object once exactly if it was made.
  connect_tls-released :
      (c : ConnectAnswers) (t : SetUp) (fd : ℕ)
      → c.socket ≡ Answer.result (suc fd)
      → connect_error c ≡ none
      → let s = tls_destroy (connect_tls strerror make_tls_error c t new_tls_socket).1 in
        (s.socket.closes ≡ some (suc fd) ∷ []) × (s.freed ≡ (if t.new_ok then 1 else 0))
  unfolding connect_tls tls_destroy connect destroy
  connect_tls-released c t fd h e = elim (Bool-cases t.new_ok) [
    | inl made ↦ rw (h, e, made) (refl, refl)
    | inr failed ↦ rw (h, e, failed) (refl, refl)
  ]

  -- It succeeds exactly if the three calls of OpenSSL do, for errors that are none.
  connect_tls-is_ok :
      (c : ConnectAnswers) (t : SetUp) (fd : ℕ)
      → c.socket ≡ Answer.result (suc fd)
      → connect_error c ≡ none
      → ((n : ℕ) → is_ok (make_tls_error n) ≡ false)
      → is_ok (connect_tls strerror make_tls_error c t new_tls_socket).0
        ≡ (t.new_ok && t.set_fd == 1 && t.set_host_name == 1)
  unfolding connect_tls connect
  connect_tls-is_ok c t fd h e bad = elim (Bool-cases t.new_ok) [
    | inr failed ↦ rw (h, e, failed) (bad t.new_error)
    | inl made ↦ elim (Bool-cases (t.set_fd == 1)) [
      | inr failed ↦ rw (h, e, made, failed) (bad t.set_fd)
      | inl set ↦ elim (Bool-cases (t.set_host_name == 1)) [
        | inr failed ↦ rw (h, e, made, set, failed) (bad t.set_host_name)
        | inl named ↦ rw (h, e, made, set, named) refl
      ]
    ]
  ]
