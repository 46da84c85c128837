-- ===== src/Http/Download.antt =====
-- HttpDownload of src/oio/blob/http/blob.cpp.
use oio_sds_cpp.Prelude.{◌==◌, Bool, true, false, if◌then◌else◌, Bytes, ℤ, negsuc, length, to_int32}
use oio_sds_cpp.Api.{
  Step, init, prepared, Status, status, success, internal_error, not_found, errno, SysError,
}
use oio_sds_cpp.Http.Request.{Code, ok}
use oio_sds_cpp.Http.Exchange.{Exchange}
use oio_sds_cpp.Http.Upload.{failure_status}

module _ (x : Exchange) (strerror : SysError → Bytes) where
  pub record HttpDownload : Type 0 where
    pub io : x.State
    pub step : Step

  -- HttpDownload::skipAndReturn
  abbrev skip_and_return : HttpDownload → x.State → Status → HttpDownload × Status
  skip_and_return d io s = (record d { io = x.skip (x.close io) }, s)

  -- code == OK || code == Done
  abbrev goes_on : Code → Bool
  goes_on ok = true
  goes_on Code.done = true
  goes_on _ = false

  -- Prepare, once it is connected.
  unfoldable pub prepare_connected : HttpDownload → x.State → HttpDownload × Status
  unfolding failure_status
  prepare_connected d io =
      let (a, code) = x.write_headers io in
      let (b, code') = x.finish_request a in
      let (c, code'') = x.read_headers b in
      if goes_on code
      then (if goes_on code'
          then (if goes_on code''
              then (if x.status_code c == 404
                  then skip_and_return d c (status not_found)
                  else (record { io = c; step = prepared }, success))
              else skip_and_return d c (failure_status code''))
          else skip_and_return d b (failure_status code'))
      else skip_and_return d a (failure_status code)

  prepare_at : Step → HttpDownload → HttpDownload × Status
  unfolding prepare_connected errno
  prepare_at init d =
      let (io, good) = x.reconnect d.io in
      if x.connected d.io
      then prepare_connected d d.io
      else if good
      then prepare_connected d io
      else (record d { io = io }, errno strerror (x.last_error io))
  prepare_at _ d = (d, status internal_error)

  -- HttpDownload::Prepare
  unfoldable pub prepare : HttpDownload → HttpDownload × Status
  unfolding prepare_at
  prepare d = prepare_at d.step d

  -- HttpDownload::IsEof
  abbrev pub is_eof : HttpDownload → Bool
  is_eof d = x.finished d.io

  read_at : Step → HttpDownload → Bytes → HttpDownload × Bytes × ℤ
  read_at prepared d buf =
      let (io, out, code) = x.append_body d.io buf in
      (record d { io = io }, out, to_int32 (length out))
  read_at _ d buf = (d, buf, negsuc 0)

  -- HttpDownload::Read: the download, `*buf` and the result.
  unfoldable pub read : HttpDownload → Bytes → HttpDownload × Bytes × ℤ
  unfolding read_at
  read d buf = read_at d.step d buf
