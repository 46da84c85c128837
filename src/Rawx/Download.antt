-- ===== src/Rawx/Download.antt =====
-- RawxDownload of src/oio/blob/rawx/blob.cpp: the whole blob is read, then a range of it is given.
use oio_sds_cpp.Prelude.{
  ℕ, zero, suc, ◌+◌, ltb, leb, Bool, if◌then◌else◌, [], Option, some, none, Bytes, ℤ, negsuc,
  length, take, drop, to_int32,
}
use oio_sds_cpp.Api.{Step, init, prepared, Status, status, internal_error, is_ok}
use oio_sds_cpp.Rawx.Command.{Range, RawxCommand, empty_command}

-- The download of another backend, as RawxDownload uses it.
pub record Source : Type 1 where
  pub State : Type 0
  pub prepare : State → State × Status
  pub is_eof : State → Bool
  pub read : State → Bytes → State × Bytes × ℤ  -- with the vector that it fills

-- What Read comes to: the fuel ends in its loop, memcpy reads behind the blob, or it returns.
pub data Outcome (A : Type 0) : Type 0 where
  spins over_read : Outcome A
  returns : A → Outcome A

module _ (src : Source) where
  pub record RawxDownload : Type 0 where
    pub inner : src.State
    pub command : RawxCommand
    pub step : Step

  -- RawxDownload::RawxDownload
  abbrev pub new_download : src.State → RawxDownload
  new_download s = record { inner = s; command = empty_command; step = init }

  -- RawxDownload::set_param
  abbrev pub set_param : RawxDownload → RawxCommand → RawxDownload
  set_param d c = record d { command = c }

  -- RawxDownload::IsEof
  abbrev pub is_eof : RawxDownload → Bool
  is_eof d = src.is_eof d.inner

  prepare_at : Step → RawxDownload → RawxDownload × Status
  prepare_at init d =
      let (s, rc) = src.prepare d.inner in
      (if is_ok rc then record d { inner = s; step = prepared } else record d { inner = s }, rc)
  prepare_at _ d = (d, status internal_error)

  -- RawxDownload::Prepare
  unfoldable pub prepare : RawxDownload → RawxDownload × Status
  unfolding prepare_at
  prepare d = prepare_at d.step d

  -- `while (!IsEof()) inner->Read(&temp_buf)`
  unfoldable pub read_all : ℕ → src.State → Bytes → Option (src.State × Bytes)
  read_all zero s temp = if src.is_eof s then some (s, temp) else none
  read_all (suc fuel) s temp =
      let (s', temp', rc) = src.read s temp in
      let rest = read_all fuel s' temp' in if src.is_eof s then some (s, temp) else rest

  -- What Read leaves in `*buf`, of the bytes of the blob: memcpy takes them at the range.
  unfoldable pub in_range : Range → Bytes → Outcome Bytes
  in_range r temp =
      if ltb r.size (length temp)
      then (if leb (r.start + r.size) (length temp)
          then returns (take r.size (drop r.start temp))
          else over_read)
      else returns temp

  abbrev with_buf : RawxDownload → Outcome Bytes → Outcome (RawxDownload × Bytes × ℤ)
  with_buf d spins = spins
  with_buf d over_read = over_read
  with_buf d (returns buf) = returns (d, buf, to_int32 (length buf))

  ranged : RawxDownload → Option (src.State × Bytes) → Outcome (RawxDownload × Bytes × ℤ)
  unfolding in_range
  ranged d none = spins
  ranged d (some (s, temp)) = with_buf (record d { inner = s }) (in_range d.command.range temp)

  read_at : Step → ℕ → RawxDownload → Bytes → Outcome (RawxDownload × Bytes × ℤ)
  unfolding ranged read_all
  read_at prepared fuel d buf = ranged d (read_all fuel d.inner [])
  read_at _ fuel d buf = returns (d, buf, negsuc 0)

  -- RawxDownload::Read: the download, `*buf` and the result.
  unfoldable pub read : ℕ → RawxDownload → Bytes → Outcome (RawxDownload × Bytes × ℤ)
  unfolding read_at
  read fuel d buf = read_at d.step fuel d buf
