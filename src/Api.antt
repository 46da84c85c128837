-- ===== src/Api.antt =====
-- src/oio/api/common.hpp, src/oio/api/common.cpp and src/oio/api/blob.hpp: causes of failure,
-- statuses, the translation of `errno` values and of service codes, and the steps of a transaction.
pub mod Protocol
pub mod Transaction
use oio_sds_cpp.Prelude.{
  ℕ, ◌≡◌, ◌↔◌, refl, Bool, true, false, if◌then◌else◌, ◌==◌, ◌||◌, arith, Bytes, [],
}

pub data Cause : Type 0 where
  ok already forbidden not_found network_error protocol_error unsupported internal_error : Cause

pub record Status : Type 0 where
  pub rc : Cause
  pub code : ℕ
  pub msg : Bytes

-- Status(Cause)
abbrev pub status : Cause → Status
status c = record { rc = c; code = 0; msg = [] }

-- Status()
abbrev pub success : Status
success = status ok

abbrev pub is_ok_cause : Cause → Bool
is_ok_cause ok = true
is_ok_cause _ = false

-- Status::Ok
abbrev pub is_ok : Status → Bool
is_ok s = is_ok_cause s.rc

-- The values of `errno` that the sources name; `no_error` is 0, and `other` any further one.
pub data SysError : Type 0 where
  no_error enoent eexist econnreset econnrefused econnaborted epipe eacces eperm enotdir enotsup
        eintr eagain etimedout e2big ebadmsg einval ecanceled enxio :
      SysError
  other : ℕ → SysError

-- _map
unfoldable pub map_errno : SysError → Cause
map_errno enoent = not_found
map_errno eexist = already
map_errno econnreset = network_error
map_errno econnrefused = network_error
map_errno econnaborted = network_error
map_errno epipe = network_error
map_errno eacces = forbidden
map_errno eperm = forbidden
map_errno enotdir = forbidden
map_errno enotsup = unsupported
map_errno _ = internal_error

-- Errno(int); `strerror` is the C library's.
unfoldable pub errno : (SysError → Bytes) → SysError → Status
unfolding map_errno
errno strerror no_error = record { rc = ok; code = 0; msg = strerror no_error }
errno strerror e = record { rc = map_errno e; code = 0; msg = strerror e }

-- OioError::mapCode
unfoldable pub map_code : ℕ → Cause
map_code c = if (c == 420) || (c == 431) then not_found else internal_error

-- OioError::Set
unfoldable pub oio_error_set : ℕ → Bytes → Status
unfolding map_code
oio_error_set c message = record { rc = map_code c; code = c; msg = message }

-- TransactionStep
pub data Step : Type 0 where
  init prepared done : Step

-- A status made from `errno` is a success exactly when there was no error.
pub errno-ok_iff :
    (strerror : SysError → Bytes) (e : SysError)
    → (is_ok (errno strerror e) ≡ true) ↔ (e ≡ no_error)
unfolding errno
errno-ok_iff strerror e = ground arith

-- An error that a service reports is never a success, whatever its code, and keeps its code.
pub oio_error_set-fails :
    (c : ℕ) (message : Bytes)
    → (is_ok (oio_error_set c message) ≡ false) × ((oio_error_set c message).code ≡ c)
unfolding oio_error_set
oio_error_set-fails c message = ground arith
