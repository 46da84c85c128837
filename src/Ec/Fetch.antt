-- ===== src/Ec/Fetch.antt =====
-- How EcDownload::Prepare of src/oio/blob/ec/blob.cpp downloads a fragment from its rawx service.
use oio_sds_cpp.Prelude.{ℕ, zero, suc, Bool, if◌then◌else◌, [], Bytes}
use oio_sds_cpp.Api.{is_ok}
use oio_sds_cpp.Rawx.Url.{host_port}
use oio_sds_cpp.Rawx.Command as RawxCommands
use oio_sds_cpp.Rawx.Builder.{RawxBuilder, new_builder, set_param}
use oio_sds_cpp.Rawx.Download as RawxDownloads
use oio_sds_cpp.Rawx.Download.{Source, RawxDownload, spins, over_read, returns}
use oio_sds_cpp.Ec.Command.{RawxUrlSet}

-- What the download of a fragment comes to: nothing, its bytes, a loop that does not end within its
-- fuel, or a read of memory outside of a buffer.
pub data Fetched : Type 0 where
  missing stuck beyond : Fetched
  fragment : Bytes → Fetched

-- The sockets to the rawx services, and the downloads over them that the HTTP builder makes.
pub record Services (src : Source) : Type 1 where
  pub State : Type 0
  pub get_socket : State → Bytes → State × Bool  -- TheScoketMap.GetSocket, whether it gives one
  pub build : State → RawxBuilder → src.State

module _ (src : Source) where
  -- `while (!dl->IsEof()) dl->Read(&buf)`, then the fragment is copied.
  unfoldable pub read_fragment : ℕ → RawxDownload src → Bytes → Fetched
  read_fragment zero d buf = if RawxDownloads.is_eof src d then fragment buf else stuck
  read_fragment (suc fuel) d buf =
      let rest = elim (RawxDownloads.read src fuel d buf) as (λ _. Fetched) [
        | spins ↦ stuck
        | over_read ↦ beyond
        | returns (d', buf', rc) ↦ read_fragment fuel d' buf'
      ] in
      if RawxDownloads.is_eof src d then fragment buf else rest

  -- The command of the download of a fragment: only its URL is set.
  abbrev pub fragment_command : RawxUrlSet → RawxCommands.RawxCommand
  fragment_command t = record RawxCommands.empty_command { url = t.url }

  -- The download that the builder makes of a target.
  abbrev pub fragment_download : src.State → RawxUrlSet → RawxDownload src
  fragment_download inner t =
      RawxDownloads.set_param src (RawxDownloads.new_download src inner) (fragment_command t)

  -- A download from its preparation on.
  unfoldable pub fetch_over : ℕ → src.State → RawxUrlSet → Fetched
  unfolding read_fragment
  fetch_over fuel inner t =
      let (d, rc) = RawxDownloads.prepare src (fragment_download inner t) in
      if is_ok rc then read_fragment fuel d [] else missing

  -- What Prepare does for a target, up to the fragment.
  unfoldable pub fetch : (v : Services src) → ℕ → v.State → RawxUrlSet → v.State × Fetched
  unfolding fetch_over
  fetch v fuel s t =
      let (s', connected) = v.get_socket s (host_port t.url) in
      (
        s',
        if connected
            then fetch_over fuel (v.build s' (set_param new_builder (fragment_command t))) t
            else missing,
      )
