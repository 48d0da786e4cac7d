-- ===== src/Socket/Closing.antt =====
-- apib/socket.cc: how often a descriptor is closed.
use apib.Prelude.{ℕ, suc, ◌≡◌, refl, false, Option, none, some, [], ◌∷◌, Bytes}
use apib.Status.{is_ok}
use apib.Socket.{new_socket, Answer, ConnectAnswers, connect, connect_error, close, destroy}

module _ (strerror : ℕ → Bytes) where
  -- A socket that was connected without an error and closed by its user closes its descriptor
  -- once, whatever ::close answers: the destructor does not close it again.
  close-once :
      (c : ConnectAnswers) (fd : ℕ) (r : Option ℕ)
      → c.socket ≡ Answer.result (suc fd)
      → connect_error c ≡ none
      → (destroy (close strerror r (connect strerror c new_socket).1).1).closes ≡ some (suc fd) ∷ []
  unfolding connect close destroy
  close-once c fd none h e = rw (h, e) refl
  close-once c fd (some errno) h e = rw (h, e) refl

  -- A socket that connects and is destroyed without a close closes its descriptor once.
  pub destroy-once :
      (c : ConnectAnswers) (fd : ℕ)
      → c.socket ≡ Answer.result (suc fd)
      → connect_error c ≡ none
      → (destroy (connect strerror c new_socket).1).closes ≡ some (suc fd) ∷ []
  unfolding connect destroy
  destroy-once c fd h e = rw (h, e) refl

  -- Where a call of connect fails behind the creation of the descriptor, connect reports an error,
  -- and the descriptor is closed twice: by connect, and by the destructor once more.
  pub connect-closes_twice :
      (c : ConnectAnswers) (fd errno : ℕ)
      → c.socket ≡ Answer.result (suc fd)
      → connect_error c ≡ some errno
      → let r = connect strerror c new_socket in
        (is_ok r.0 ≡ false) × ((destroy r.1).closes ≡ some (suc fd) ∷ some (suc fd) ∷ [])
  unfolding connect destroy
  connect-closes_twice c fd errno h e = rw (h, e) (refl, refl)
