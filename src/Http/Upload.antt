-- ===== src/Http/Upload.antt =====
-- HttpUpload of src/oio/blob/http/blob.cpp.
use oio_sds_cpp.Prelude.{ℕ, zero, suc, ◌/◌, ◌==◌, if◌then◌else◌, [], ◌∷◌, Option, some, none, Bytes}
use oio_sds_cpp.Api.{Step, init, prepared, done, Status, status, success, internal_error}
use oio_sds_cpp.Api as Api
use oio_sds_cpp.Http.Request.{Code, network_error, is_ok_code}
use oio_sds_cpp.Http.Exchange.{Exchange}

-- The status of a transaction whose exchange failed.
unfoldable pub failure_status : Code → Status
failure_status network_error = status Api.network_error
failure_status _ = status internal_error

module _ (x : Exchange) where
  pub record HttpUpload : Type 0 where
    pub io : x.State
    pub step : Step

  -- HttpUpload::SetXattr
  set_xattr_at : Step → HttpUpload → Bytes → Bytes → HttpUpload
  set_xattr_at done u k v = u
  set_xattr_at _ u k v = record u { io = x.set_field u.io k v }

  unfoldable pub set_xattr : HttpUpload → Bytes → Bytes → HttpUpload
  unfolding set_xattr_at
  set_xattr u k v = set_xattr_at u.step u k v

  prepare_at : Step → HttpUpload → HttpUpload × Status
  unfolding failure_status
  prepare_at init u =
      let (io, rc) = x.write_headers u.io in
      if is_ok_code rc
      then (record { io = io; step = prepared }, success)
      else (record u { io = io }, failure_status rc)
  prepare_at _ u = (u, status internal_error)

  -- HttpUpload::Prepare
  unfoldable pub prepare : HttpUpload → HttpUpload × Status
  unfolding prepare_at
  prepare u = prepare_at u.step u

  -- `while (rc == OK) rc = reply.AppendBody(&out)`, of a new `out` at each round.
  unfoldable pub drain : ℕ → x.State → Code → Option x.State
  drain zero io rc = if is_ok_code rc then none else some io
  drain (suc fuel) io rc =
      let (io', out, rc') = x.append_body io [] in
      let rest = drain fuel io' rc' in if is_ok_code rc then rest else some io

  abbrev final_status : Option x.State → Option (HttpUpload × Status)
  final_status none = none
  final_status (some io) = some (
    record { io = io; step = done },
    (if x.status_code io / 100 == 2 then success else status internal_error),
  )

  commit_at : Step → ℕ → HttpUpload → Option (HttpUpload × Status)
  unfolding failure_status drain
  commit_at prepared fuel u =
      let (io, rc) = x.finish_request u.io in
      let (io', rc') = x.read_headers io in
      if is_ok_code rc
      then final_status (drain fuel io' rc')
      else some (record { io = io; step = done }, failure_status rc)
  commit_at _ fuel u = some (u, status internal_error)

  -- HttpUpload::Commit; `none` when the fuel ends before its loop.
  unfoldable pub commit : ℕ → HttpUpload → Option (HttpUpload × Status)
  unfolding commit_at
  commit fuel u = commit_at u.step fuel u

  abort_at : Step → HttpUpload → HttpUpload × Status
  abort_at prepared u = (record { io = x.close u.io; step = done }, success)
  abort_at _ u = (u, status internal_error)

  -- HttpUpload::Abort
  unfoldable pub abort : HttpUpload → HttpUpload × Status
  unfolding abort_at
  abort u = abort_at u.step u

  -- HttpUpload::Write; the code of the request is dropped.
  unfoldable pub write : HttpUpload → Bytes → HttpUpload
  write u [] = u
  write u (b ∷ buf) = record u { io = (x.write u.io (b ∷ buf)).0 }
