-- ===== src/Status.antt =====
-- apib/status.h and apib/status.cc: a code and a message, and a value or such a status.
use apib.Prelude.{Bool, true, false, ◌++◌, [], ◌∷◌, Bytes, codes}

pub data Code : Type 0 where
  ok socket_error tls_error dns_error invalid_url io_error internal_error : Code

pub record Status : Type 0 where
  pub code : Code
  pub msg : Bytes

abbrev pub ok_status : Status
ok_status = record { code = Code.ok; msg = [] }

abbrev pub is_ok_code : Code → Bool
is_ok_code Code.ok = true
is_ok_code _ = false

-- Status::ok()
abbrev pub is_ok : Status → Bool
is_ok s = is_ok_code s.code

-- StatusOr<T>, where the value of a failed one is not read
pub data StatusOr {ℓ} (A : Type ℓ) : Type ℓ where
  value : A → StatusOr A
  failed : Status → StatusOr A

unfoldable pub code_string : Code → Bytes
code_string Code.ok = codes "ok"
code_string Code.socket_error = codes "Socket error"
code_string Code.tls_error = codes "TLS error"
code_string Code.dns_error = codes "DNS error"
code_string Code.invalid_url = codes "Invalid URL"
code_string Code.io_error = codes "I/O error"
code_string Code.internal_error = codes "Internal error"

abbrev with_msg : Bytes → Bytes → Bytes
with_msg name [] = name
with_msg name (c ∷ cs) = name ++ (codes ": " ++ (c ∷ cs))

-- Status::str()
unfoldable pub str : Status → Bytes
unfolding code_string
str s = with_msg (code_string s.code) s.msg
