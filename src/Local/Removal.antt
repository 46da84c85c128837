-- ===== src/Local/Removal.antt =====
-- LocalRemoval of src/oio/blob/local/blob.cpp.
use oio_sds_cpp.Prelude.{Option, some, none, Bytes}
use oio_sds_cpp.Api.{
  Step, init, prepared, done, Status, status, success, internal_error, errno, SysError,
}
use oio_sds_cpp.Local.FileSystem.{FileSystem}

pub record LocalRemoval : Type 0 where
  pub path : Bytes
  pub step : Step

-- RemovalBuilder::Build
abbrev pub build : Bytes → LocalRemoval
build path = record { path = path; step = init }

module _ (fs : FileSystem) (strerror : SysError → Bytes) where
  abbrev found : LocalRemoval → Option SysError → LocalRemoval × Status
  found r none = (record r { step = prepared }, success)
  found r (some e) = (r, errno strerror e)

  prepare_at : Step → LocalRemoval → fs.State → LocalRemoval × Status
  prepare_at init r s = found r (fs.stat s r.path)
  prepare_at _ r s = (r, status internal_error)

  -- LocalRemoval::Prepare
  unfoldable pub prepare : LocalRemoval → fs.State → LocalRemoval × Status
  unfolding prepare_at
  prepare r s = prepare_at r.step r s

  abbrev unlinked : LocalRemoval → fs.State × Option SysError → LocalRemoval × fs.State × Status
  unlinked r (s, none) = (r, s, success)
  unlinked r (s, some e) = (r, s, errno strerror e)

  commit_at : Step → LocalRemoval → fs.State → LocalRemoval × fs.State × Status
  commit_at prepared r s = unlinked (record r { step = done }) (fs.unlink s r.path)
  commit_at _ r s = (r, s, status internal_error)

  -- LocalRemoval::Commit
  unfoldable pub commit : LocalRemoval → fs.State → LocalRemoval × fs.State × Status
  unfolding commit_at
  commit r s = commit_at r.step r s

  abort_at : Step → LocalRemoval → LocalRemoval × Status
  abort_at prepared r = (record r { step = done }, success)
  abort_at _ r = (r, status internal_error)

  -- LocalRemoval::Abort
  unfoldable pub abort : LocalRemoval → LocalRemoval × Status
  unfolding abort_at
  abort r = abort_at r.step r
