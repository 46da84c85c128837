-- ===== src/Local/Download.antt =====
-- LocalDownload of src/oio/blob/local/blob.cpp: a file is read by batches.
pub mod Loading
pub mod Reading
use oio_sds_cpp.Prelude.{
  ℕ, zero, suc, ◌+◌, ◌-◌, ◌%◌, ltb, ◌==◌, ◌&&◌, Bool, true, false, not, if◌then◌else◌, List, [],
  ◌∷◌, Option, some, none, Bytes, length, ℤ, pos, u32_mod, to_int32,
}
use oio_sds_cpp.Api.{
  Step, init, prepared, done, Status, status, success, internal_error, forbidden, not_found, errno,
  SysError, enoent, enxio, other, eagain,
}
use oio_sds_cpp.Local.FileSystem.{FileSystem, Answer, gives, fails, is_enoent, is_eagain}

pub record LocalDownload : Type 0 where
  pub path : Bytes
  pub buffer : Bytes
  pub offset : ℕ
  pub size_expected : ℕ
  pub size_read : ℕ
  pub fd : Option ℕ  -- `none` is -1
  pub step : Step

-- DownloadBuilder::Build
abbrev pub build : Bytes → LocalDownload
build path = record {
  path = path;
  buffer = [];
  offset = 0;
  size_expected = 0;
  size_read = 0;
  fd = none;
  step = init;
}

-- LocalDownload::IsEof
abbrev pub is_eof : LocalDownload → Bool
is_eof d = elim d.step [ init ↦ false | prepared ↦ false | done ↦ true ]

-- LocalDownload::SetRange
set_range_at : Step → LocalDownload → ℕ → ℕ → LocalDownload × Status
set_range_at prepared d offset size = (record d { offset = offset; size_expected = size }, success)
set_range_at _ d offset size = (d, status forbidden)

unfoldable pub set_range : LocalDownload → ℕ → ℕ → LocalDownload × Status
unfolding set_range_at
set_range d offset size = set_range_at d.step d offset size

-- The bytes of a vector that is resized while empty.
unfoldable pub zeros : ℕ → Bytes
zeros zero = []
zeros (suc n) = 0 ∷ zeros n

-- How many bytes loadBuffer asks for.
abbrev pub batch_size : ℕ → LocalDownload → ℕ
batch_size batch d =
    let remaining = d.size_expected - d.size_read in
    if ltb 0 d.size_expected && (ltb 0 remaining && ltb remaining batch) then remaining else batch

-- `read_batch_size` and `read_eintr_attempts` are the flags of the program.
module _ (fs : FileSystem) (strerror : SysError → Bytes)
    (read_batch_size read_eintr_attempts : ℕ) where
  -- LocalDownload::closeAndErrno
  abbrev close_and_errno : LocalDownload → fs.State → SysError → LocalDownload × fs.State × Status
  close_and_errno d s e = elim d.fd [
    | none ↦ (d, s, errno strerror e)
    | some fd ↦ (record d { fd = none }, fs.close s fd, errno strerror e)
  ]

  -- The seek to the offset; a result other than 0 closes the file, and its status is dropped.
  abbrev sought : LocalDownload → ℕ → fs.State × Answer ℕ → LocalDownload × fs.State
  sought d fd (s, fails e) = (record d { fd = none }, fs.close s fd)
  sought d fd (s, gives at) =
      if at % u32_mod == 0 then (d, s) else (record d { fd = none }, fs.close s fd)

  abbrev seek : LocalDownload → ℕ → fs.State → LocalDownload × fs.State
  seek d fd s = if ltb 0 d.offset then sought d fd (fs.lseek s fd d.offset) else (d, s)

  -- fstat64, of a descriptor that may be -1: then its errno is EBADF.
  abbrev size_of : Option ℕ → fs.State → Answer ℕ
  size_of none s = fails (other 9)
  size_of (some fd) s = fs.fstat s fd

  abbrev checked : LocalDownload → fs.State → Answer ℕ → LocalDownload × fs.State × Status
  checked d s (fails e) = close_and_errno d s e
  checked d s (gives size) =
      if ltb size (d.size_expected + d.offset)
      then close_and_errno d s enxio
      else (record d { step = prepared }, s, success)

  abbrev check_size : LocalDownload × fs.State → LocalDownload × fs.State × Status
  check_size (d, s) =
      if ltb 0 d.size_expected
      then checked d s (size_of d.fd s)
      else (record d { step = prepared }, s, success)

  abbrev opened : LocalDownload → fs.State × Answer ℕ → LocalDownload × fs.State × Status
  opened d (s, fails e) = (d, s, if is_enoent e then status not_found else status internal_error)
  opened d (s, gives fd) = check_size (seek (record d { fd = some fd }) fd s)

  prepare_at : Step → Option ℕ → LocalDownload → fs.State → LocalDownload × fs.State × Status
  unfolding errno
  prepare_at init none d s = opened d (fs.open_read s d.path)
  prepare_at _ _ d s = (d, s, status internal_error)

  -- LocalDownload::Prepare
  unfoldable pub prepare : LocalDownload → fs.State → LocalDownload × fs.State × Status
  unfolding prepare_at
  prepare d s = prepare_at d.step d.fd d s

  -- What loadBufferAndRetry leaves and returns: the bytes that it read, none of them where it returns 0.
  abbrev pub Loaded : Type 0
  Loaded = LocalDownload × fs.State × Bytes

  abbrev polled : fs.State × Bool → LocalDownload → Option (fs.State → Loaded) → Loaded
  polled (s, true) d (some again) = again s
  polled (s, _) d _ = (d, s, [])

  abbrev took : ℕ → LocalDownload → fs.State × Answer Bytes → Option (fs.State → Loaded) → Loaded
  took fd d (s, gives []) again = (record d { step = done }, s, [])
  took fd d (s, gives (b ∷ bs)) again =
      (record d { size_read = d.size_read + length (b ∷ bs) }, s, b ∷ bs)
  took fd d (s, fails e) again = if is_eagain e then polled (fs.poll s fd) d again else (d, s, [])

  -- LocalDownload::loadBufferAndRetry
  unfoldable pub load_and_retry : ℕ → ℕ → ℕ → LocalDownload → fs.State → Loaded
  load_and_retry zero fd size d s = took fd d (fs.read s fd size) none
  load_and_retry (suc attempts) fd size d s =
      took fd d (fs.read s fd size) (some (λ s'. load_and_retry attempts fd size d s'))

  -- The buffer behind a load: the bytes read, or zeros, as long as was asked for, where there are none.
  abbrev buffered : ℕ → Loaded → LocalDownload × fs.State × Bool
  buffered size (d, s, []) = (record d { buffer = zeros size }, s, false)
  buffered size (d, s, b ∷ bs) = (record d { buffer = b ∷ bs }, s, true)

  load_fd : Option ℕ → LocalDownload → fs.State → Option (LocalDownload × fs.State × Bool)
  unfolding load_and_retry zeros
  load_fd none d s = none
  load_fd (some fd) d s =
      let size = batch_size read_batch_size d in
      some (buffered size (load_and_retry read_eintr_attempts fd size d s))

  -- LocalDownload::loadBuffer; `none` where its assertion fails.
  unfoldable pub load_buffer : LocalDownload → fs.State → Option (LocalDownload × fs.State × Bool)
  unfolding load_fd
  load_buffer d s = load_fd d.fd d s

  abbrev pub Given : Type 0
  Given = LocalDownload × fs.State × Bytes × ℤ

  -- `buf->swap(buffer)`
  abbrev swapped : LocalDownload → fs.State → Given
  swapped d s = (record d { buffer = [] }, s, d.buffer, to_int32 (length d.buffer))

  abbrev loaded : Bytes → Option (LocalDownload × fs.State × Bool) → Option Given
  loaded buf none = none
  loaded buf (some (d, s, true)) = some (swapped d s)
  loaded buf (some (d, s, false)) = some (d, s, buf, pos 0)

  abbrev read_buffer : Bytes → LocalDownload → fs.State → Bytes → Option Given
  read_buffer [] d s buf = loaded buf (load_buffer d s)
  read_buffer (b ∷ bs) d s buf = some (swapped d s)

  read_at : Step → LocalDownload → fs.State → Bytes → Option Given
  unfolding load_buffer to_int32
  read_at prepared d s buf = read_buffer d.buffer d s buf
  read_at _ d s buf = some (d, s, buf, pos 0)

  -- LocalDownload::Read: the download, the kernel, `*buf` and the result; `none` where an assertion fails.
  unfoldable pub read : LocalDownload → fs.State → Bytes → Option Given
  unfolding read_at
  read d s buf = read_at d.step d s buf
