-- ===== src/Http/Removal.antt =====
-- HttpRemoval of src/oio/blob/http/blob.cpp.
use oio_sds_cpp.Prelude.{ℕ, ◌==◌, ◌||◌, Bool, true, false, not, if◌then◌else◌, Bytes}
use oio_sds_cpp.Api.{
  Step, init, prepared, done, Status, status, success, internal_error, protocol_error, forbidden,
  not_found, errno, SysError,
}
use oio_sds_cpp.Api as Api
use oio_sds_cpp.Http.Request.{Code, ok, server_error, is_ok_code}
use oio_sds_cpp.Http.Exchange.{Exchange}
use oio_sds_cpp.Http.Upload.{failure_status}

module _ (x : Exchange) (strerror : SysError → Bytes) where
  pub record HttpRemoval : Type 0 where
    pub io : x.State
    pub step : Step

  -- HttpRemoval::skipAndReturn
  abbrev skip_and_return : HttpRemoval → x.State → Status → HttpRemoval × Status
  skip_and_return r io s = (record r { io = x.close (x.skip io) }, s)

  -- The codes on which Prepare looks at the status of the reply.
  abbrev readable : Code → Bool
  readable ok = true
  readable server_error = true
  readable _ = false

  -- The switch on the status of the reply to the headers.
  unfoldable pub on_continue : HttpRemoval → x.State → ℕ → HttpRemoval × Status
  on_continue r io code =
      if code == 100
      then (record { io = x.skip io; step = prepared }, success)
      else if code == 400
      then skip_and_return r io (status protocol_error)
      else if code == 403
      then skip_and_return r io (status forbidden)
      else if code == 404
      then skip_and_return r io (status not_found)
      else skip_and_return r io (status internal_error)

  -- Prepare, once it is connected.
  unfoldable pub prepare_connected : HttpRemoval → x.State → HttpRemoval × Status
  unfolding failure_status on_continue
  prepare_connected r io =
      let (io', code) = x.write_headers io in
      let (io'', code') = x.read_headers io' in
      if not (is_ok_code code)
      then skip_and_return r io' (failure_status code)
      else if not (readable code')
      then skip_and_return r io'' (failure_status code')
      else on_continue r io'' (x.status_code io'')

  prepare_at : Step → HttpRemoval → HttpRemoval × Status
  unfolding prepare_connected errno
  prepare_at init r =
      let (io, good) = x.reconnect r.io in
      if x.connected r.io
      then prepare_connected r r.io
      else if good
      then prepare_connected r io
      else (record r { io = io }, errno strerror (x.last_error io))
  prepare_at _ r = (r, status internal_error)

  -- HttpRemoval::Prepare
  unfoldable pub prepare : HttpRemoval → HttpRemoval × Status
  unfolding prepare_at
  prepare r = prepare_at r.step r

  -- The switch on the final status.
  unfoldable pub on_final : HttpRemoval → x.State → ℕ → HttpRemoval × Status
  on_final r io code =
      if (code == 200) || ((code == 201) || (code == 204))
      then (record r { io = x.skip io }, success)
      else if code == 403
      then skip_and_return r io (status forbidden)
      else if code == 404
      then skip_and_return r io (status not_found)
      else skip_and_return r io (status internal_error)

  unfoldable pub commit_connected : HttpRemoval → HttpRemoval × Status
  unfolding failure_status on_final
  commit_connected r =
      let (io, code) = x.finish_request r.io in
      let (io', code') = x.read_headers io in
      if not (is_ok_code code)
      then skip_and_return r io (failure_status code)
      else if not (is_ok_code code')
      then skip_and_return r io' (failure_status code')
      else on_final r io' (x.status_code io')

  commit_at : Step → HttpRemoval → HttpRemoval × Status
  unfolding commit_connected
  commit_at prepared r =
      if x.connected r.io
      then commit_connected (record r { step = done })
      else (r, status Api.network_error)
  commit_at _ r = (r, status internal_error)

  -- HttpRemoval::Commit
  unfoldable pub commit : HttpRemoval → HttpRemoval × Status
  unfolding commit_at
  commit r = commit_at r.step r

  abort_at : Step → HttpRemoval → HttpRemoval × Status
  abort_at prepared r =
      if x.connected r.io
      then (record { io = x.close r.io; step = done }, success)
      else (r, status Api.network_error)
  abort_at _ r = (r, status internal_error)

  -- HttpRemoval::Abort
  unfoldable pub abort : HttpRemoval → HttpRemoval × Status
  unfolding abort_at
  abort r = abort_at r.step r
