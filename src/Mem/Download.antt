-- ===== src/Mem/Download.antt =====
-- MemDownload of src/oio/blob/mem/blob.cpp.
use oio_sds_cpp.Prelude.{Bytes, [], Bool, true, false, ℤ, negsuc, to_int32, length, if◌then◌else◌}
use oio_sds_cpp.Api.{Status, Step, init, prepared, done, status, internal_error, is_ok}
use oio_sds_cpp.Mem
use oio_sds_cpp.Mem.{Cache}

pub record MemDownload : Type 0 where
  pub name : Bytes
  pub value : Bytes
  pub step : Step

-- DownloadBuilder::Build
abbrev pub build : Bytes → MemDownload
build name = record { name = name; value = []; step = init }

prepare_at : Step → MemDownload → Cache → MemDownload × Status
prepare_at init d c =
    let (value, rc) = Mem.get c d.value d.name in
    (
      if is_ok rc then record d { value = value; step = prepared } else record d { value = value },
      rc,
    )
prepare_at _ d c = (d, status internal_error)

-- MemDownload::Prepare
unfoldable pub prepare : MemDownload → Cache → MemDownload × Status
unfolding prepare_at
prepare d c = prepare_at d.step d c

is_eof_at : Step → Bool
is_eof_at prepared = false
is_eof_at _ = true

-- MemDownload::IsEof
unfoldable pub is_eof : MemDownload → Bool
unfolding is_eof_at
is_eof d = is_eof_at d.step

read_at : Step → MemDownload → Bytes → MemDownload × Bytes × ℤ
read_at prepared d buf = (record d { value = []; step = done }, d.value, to_int32 (length d.value))
read_at _ d buf = (d, buf, negsuc 0)

-- MemDownload::Read; `buf` is what the caller's buffer held, and the new buffer comes back.
unfoldable pub read : MemDownload → Bytes → MemDownload × Bytes × ℤ
unfolding read_at
read d buf = read_at d.step d buf
