-- ===== src/Mem/Upload.antt =====
-- MemUpload and UploadBuilder of src/oio/blob/mem/blob.cpp. A method returns the upload, the shared
-- cache and its status; a call out of order is refused before the cache is reached.
use oio_sds_cpp.Prelude.{Bytes, if◌then◌else◌}
use oio_sds_cpp.Api.{Status, Step, init, prepared, done, status, internal_error, is_ok}
use oio_sds_cpp.Mem
use oio_sds_cpp.Mem.{Cache}

pub record MemUpload : Type 0 where
  pub name : Bytes
  pub step : Step

-- UploadBuilder::Build
abbrev pub build : Bytes → MemUpload
build name = record { name = name; step = init }

prepared_if : Status → MemUpload → MemUpload
prepared_if rc u = if is_ok rc then record u { step = prepared } else u

prepare_at : Step → MemUpload → Cache → MemUpload × Cache × Status
unfolding prepared_if
prepare_at init u c = let (c', rc) = Mem.create c u.name in (prepared_if rc u, c', rc)
prepare_at _ u c = (u, c, status internal_error)

-- MemUpload::Prepare
unfoldable pub prepare : MemUpload → Cache → MemUpload × Cache × Status
unfolding prepare_at
prepare u c = prepare_at u.step u c

commit_at : Step → MemUpload → Cache → MemUpload × Cache × Status
commit_at prepared u c = let (c', rc) = Mem.commit c u.name in (record u { step = done }, c', rc)
commit_at _ u c = (u, c, status internal_error)

-- MemUpload::Commit
unfoldable pub commit : MemUpload → Cache → MemUpload × Cache × Status
unfolding commit_at
commit u c = commit_at u.step u c

abort_at : Step → MemUpload → Cache → MemUpload × Cache × Status
abort_at prepared u c = let (c', rc) = Mem.abort c u.name in (record u { step = done }, c', rc)
abort_at _ u c = (u, c, status internal_error)

-- MemUpload::Abort
unfoldable pub abort : MemUpload → Cache → MemUpload × Cache × Status
unfolding abort_at
abort u c = abort_at u.step u c

-- MemUpload::Write drops the status of the cache.
unfoldable pub write : MemUpload → Bytes → Cache → Cache
write u buf c = (Mem.write c u.name buf).0

-- MemUpload::SetXattr
unfoldable pub set_xattr : MemUpload → Bytes → Bytes → Cache → Cache
set_xattr u k v c = (Mem.xattr c u.name k v).0
