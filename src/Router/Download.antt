-- ===== src/Router/Download.antt =====
-- RouterDownload and RouterRemoval of src/oio/blob/router/blob.cpp: a download from the backend that the
-- encoding names.
use oio_sds_cpp.Prelude.{
  ℕ, zero, suc, leb, Bool, true, false, if◌then◌else◌, [], Option, some, none, Bytes, ℤ, pos,
  length, to_int32,
}
use oio_sds_cpp.Prelude.Map.{Map, insert}
use oio_sds_cpp.Api.{Status, success, status, internal_error, is_ok}
use oio_sds_cpp.Rawx.Command.{RawxCommand}
use oio_sds_cpp.Rawx.Url.{host_port}
use oio_sds_cpp.Rawx.Builder.{RawxBuilder, new_builder}
use oio_sds_cpp.Rawx.Builder as RawxBuilders
use oio_sds_cpp.Rawx.Download as RawxDownloads
use oio_sds_cpp.Rawx.Download.{Source, RawxDownload}
use oio_sds_cpp.Ec.Command.{EcCommand}
use oio_sds_cpp.Ec.Code.{Code, Heap}
use oio_sds_cpp.Ec.Download as EcDownloads
use oio_sds_cpp.Ec.Download.{EcDownload, Outcome, spins, outside, returns}
use oio_sds_cpp.Ec.Fetch.{Services}

pub data EncodingType : Type 0 where
  ec rawx : EncodingType

pub record RouterDownload : Type 0 where
  pub buffer : Bytes
  pub xattr : Map Bytes
  pub ec_param : EcCommand
  pub rawx_param : RawxCommand
  pub encoding : EncodingType
  pub done : Bool

-- RouterDownload::set_ec_param
abbrev pub set_ec_param : RouterDownload → EcCommand → RouterDownload
set_ec_param d e = record d { ec_param = e; encoding = ec }

-- RouterDownload::set_rawx_param
abbrev pub set_rawx_param : RouterDownload → RawxCommand → RouterDownload
set_rawx_param d r = record d { rawx_param = r; encoding = rawx }

-- RouterDownload::SetXattr
abbrev pub set_xattr : RouterDownload → Bytes → Bytes → RouterDownload
set_xattr d k v = record d { xattr = insert d.xattr k v }

-- RouterDownload::IsEof
abbrev pub is_eof : RouterDownload → Bool
is_eof d = d.done

-- RouterDownload::Read, of a download and `*buf`.
unfoldable pub read : RouterDownload → Bytes → RouterDownload × Bytes × ℤ
read d buf =
    if leb (length d.buffer) 0
    then (d, buf, pos 0)
    else (record d { buffer = []; done = true }, d.buffer, to_int32 (length d.buffer))

-- The download that the builder of an erasure-coded object makes.
abbrev pub ec_download : EcCommand → EcDownload
ec_download e = record { buffer = []; xattr = []; param = e; done = false }

-- `while (!dl->IsEof()) dl->Read(&buffer)` of an erasure-coded object; `none` when the fuel ends first.
unfoldable pub read_ec : ℕ → EcDownload → Bytes → Option Bytes
unfolding EcDownloads.read
read_ec zero d buffer = if d.done then some buffer else none
read_ec (suc fuel) d buffer =
    let (d', buffer', rc) = EcDownloads.read d buffer in
    let rest = read_ec fuel d' buffer' in if d.done then some buffer else rest

-- The end of Prepare: the download with what it has read, or without.
abbrev pub accepted : RouterDownload → Option Bytes → Outcome (RouterDownload × Status)
accepted d none = spins
accepted d (some buffer) = returns (record d { buffer = buffer }, success)

abbrev refused : RouterDownload → Outcome (RouterDownload × Status)
refused d = returns (d, status internal_error)

abbrev pub after_ec :
    ℕ → RouterDownload → Outcome (EcDownload × Status) → Outcome (RouterDownload × Status)
after_ec fuel d spins = spins
after_ec fuel d outside = outside
after_ec fuel d (returns (dl, rc)) =
    if is_ok rc then accepted d (read_ec fuel dl d.buffer) else refused d

module _ (src : Source) where
  -- The same loop over a rawx service.
  unfoldable pub read_rawx : ℕ → RawxDownload src → Bytes → Outcome Bytes
  read_rawx zero d buffer = if RawxDownloads.is_eof src d then returns buffer else spins
  read_rawx (suc fuel) d buffer =
      let rest = elim (RawxDownloads.read src fuel d buffer) as (λ _. Outcome Bytes) [
        | RawxDownloads.spins ↦ spins
        | RawxDownloads.over_read ↦ outside
        | RawxDownloads.returns (d', buffer', rc) ↦ read_rawx fuel d' buffer'
      ] in
      if RawxDownloads.is_eof src d then returns buffer else rest

  abbrev after_rawx : RouterDownload → Outcome Bytes → Outcome (RouterDownload × Status)
  after_rawx d spins = spins
  after_rawx d outside = outside
  after_rawx d (returns buffer) = returns (record d { buffer = buffer }, success)

  -- The rawx branch of Prepare, with a socket.
  unfoldable pub prepare_rawx : ℕ → RouterDownload → src.State → Outcome (RouterDownload × Status)
  unfolding read_rawx
  prepare_rawx fuel d inner =
      let new = RawxDownloads.set_param src (RawxDownloads.new_download src inner) d.rawx_param in
      let (dl, rc) = RawxDownloads.prepare src new in
      if is_ok rc then after_rawx d (read_rawx fuel dl d.buffer) else refused d

  -- RouterDownload::Prepare, from a state of the services.
  unfoldable pub prepare :
      (v : Services src)
      → Code
      → Heap
      → ℕ
      → RouterDownload
      → v.State
      → Outcome (RouterDownload × Status)
  unfolding prepare_rawx read_ec
  prepare v c h fuel d s =
      let d' = record d { done = false } in
      let (s', connected) = v.get_socket s (host_port d.rawx_param.url) in
      let inner = v.build s' (RawxBuilders.set_param new_builder d.rawx_param) in
      elim d.encoding as (λ _. Outcome (RouterDownload × Status)) [
        | ec ↦ after_ec fuel d' (EcDownloads.prepare c h src v fuel (ec_download d.ec_param) s)
        | rawx ↦ if connected then prepare_rawx fuel d' inner else refused d'
      ]

-- RouterRemoval::Prepare, RouterRemoval::Commit and RouterRemoval::Abort
abbrev pub removal_status : Status
removal_status = success
