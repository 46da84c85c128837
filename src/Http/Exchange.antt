-- ===== src/Http/Exchange.antt =====
-- A request and its reply on one connection, as src/oio/blob/http/blob.cpp uses http::Request and
-- http::Reply.
use oio_sds_cpp.Prelude.{ℕ, Bool, Bytes}
use oio_sds_cpp.Api.{SysError}
use oio_sds_cpp.Http.Request.{Code}

pub record Exchange : Type 1 where
  pub State : Type 0
  pub connected : State → Bool
  pub reconnect : State → State × Bool
  pub last_error : State → SysError  -- errno
  pub close : State → State  -- Request::Abort
  pub set_field : State → Bytes → Bytes → State
  pub write_headers : State → State × Code
  pub write : State → Bytes → State × Code
  pub finish_request : State → State × Code
  pub read_headers : State → State × Code
  pub append_body : State → Bytes → State × Bytes × Code
  pub skip : State → State
  pub status_code : State → ℕ
  pub finished : State → Bool  -- the step of the reply is Done
