-- ===== src/Ec/Upload.antt =====
-- EcUpload and EcRemoval of src/oio/blob/ec/blob.cpp: a chunk is gathered in a buffer, and goes as
-- fragments to the rawx services of its targets when the upload is committed.
use oio_sds_cpp.Prelude.{
  ℕ, Bool, if◌then◌else◌, List, [], ◌∷◌, Option, some, none, Bytes, bytes, ℤ, length, get_elem?,
}
use oio_sds_cpp.Prelude.Map.{Map, insert, find}
use oio_sds_cpp.Api.{Status, success, status, internal_error, is_ok}
use oio_sds_cpp.Rawx.Url.{host_port}
use oio_sds_cpp.Rawx.Command as RawxCommands
use oio_sds_cpp.Rawx.Builder.{
  RawxBuilder, new_builder, set_param, set_upload_param, container_id, content_path, content_id,
  content_version, storage_policy, mime_type, chunk_method,
}
use oio_sds_cpp.Router.Upload.{write_loop}
use oio_sds_cpp.Ec.Command.{RawxUrlSet, EcCommand}
use oio_sds_cpp.Ec.Code.{Code, Heap}
use oio_sds_cpp.Ec.Download.{Outcome, spins, outside, returns}

-- The rawx services, as an upload uses them.
pub record Services : Type 1 where
  pub State : Type 0
  pub get_socket : State → Bytes → State × Bool  -- TheScoketMap.GetSocket, whether it gives one
  pub prepare : State → RawxBuilder → State × Status  -- of the upload that the builder makes
  pub write : State → Bytes → State
  pub commit : State → State × Status
  pub abort : State → State × Status
  pub remove : State → RawxBuilder → State × Status  -- Prepare of the removal that the builder makes
  pub commit_removal : State → State × Status
  pub version : Bytes → ℤ  -- std::istringstream(s) >> v, on 64 bits

pub record EcUpload : Type 0 where
  pub buffer : Bytes
  pub xattr : Map Bytes
  pub param : EcCommand

-- UploadBuilder::Build, with the attributes of the builder
abbrev pub new_upload : EcCommand → Map Bytes → EcUpload
new_upload param xattrs = record { buffer = []; xattr = xattrs; param = param }

-- EcUpload::SetXattr
abbrev pub set_xattr : EcUpload → Bytes → Bytes → EcUpload
set_xattr u k v = record u { xattr = insert u.xattr k v }

-- EcUpload::Prepare
abbrev pub prepare : EcUpload → EcUpload × Status
prepare u = (u, success)

abbrev with_buffer : EcUpload → Option Bytes → Option EcUpload
with_buffer u none = none
with_buffer u (some buffer) = some (record u { buffer = buffer })

-- EcUpload::Write; `none` when the fuel ends before its loop.
unfoldable pub write : ℕ → EcUpload → Bytes → Option EcUpload
unfolding write_loop
write fuel u buf = with_buffer u (write_loop fuel u.param.chunk_size u.buffer buf)

abbrev pub set_found :
    (RawxBuilder → Bytes → RawxBuilder) → RawxBuilder → Option Bytes → Option RawxBuilder
set_found f b none = none
set_found f b (some v) = some (f b v)

-- A setter of the builder with `xattr.find(k)->second`; `none` where the source reads past its map.
abbrev pub looked_up :
    Map Bytes → Bytes → (RawxBuilder → Bytes → RawxBuilder) → RawxBuilder → Option RawxBuilder
looked_up x k f b = set_found f b (find x k)

abbrev pub and_then : Option RawxBuilder → (RawxBuilder → Option RawxBuilder) → Option RawxBuilder
and_then none f = none
and_then (some b) f = f b

abbrev pub with_url : RawxUrlSet → RawxCommands.RawxCommand
with_url t = record RawxCommands.empty_command { url = t.url }

module _ (v : Services) where
  -- The builder of the upload of a fragment.
  unfoldable pub fragment_upload : EcCommand → Map Bytes → RawxUrlSet → Option RawxBuilder
  fragment_upload e x t =
      let b = set_upload_param new_builder (record (with_url t) { range = e.range }) in
      let b = looked_up x (bytes "container-id") container_id b in
      let b = and_then b (looked_up x (bytes "content-path") content_path) in
      let b = and_then b (looked_up x (bytes "content-id") content_id) in
      let b =
        and_then b
          (looked_up x (bytes "content-version") (λ b s. content_version b (v.version s))) in
      let b = and_then b (λ b. some (storage_policy b (bytes "SINGLE"))) in
      let b = and_then b (looked_up x (bytes "content-mime-type") mime_type) in
      and_then b (λ b. some (chunk_method b (bytes "plain/nb_copy=1")))

  -- An upload of a fragment: its results are not looked at, but for that of Prepare.
  abbrev pub store : v.State → RawxBuilder → Bytes → v.State
  store s b f =
      let (s', rc) = v.prepare s b in
      if is_ok rc then (v.commit (v.write s' f)).0 else (v.abort s').0

  abbrev pub send_fragment : v.State → Option RawxBuilder → Option Bytes → Outcome v.State
  send_fragment s none f = outside
  send_fragment s (some b) (some f) = returns (store s b f)
  send_fragment s (some b) none =
      let (s', rc) = v.prepare s b in if is_ok rc then outside else returns (v.abort s').0

  -- A round of the loop of Commit.
  unfoldable pub send : EcCommand → Map Bytes → List Bytes → v.State → RawxUrlSet → Outcome v.State
  unfolding fragment_upload
  send e x fs s t =
      let (s', connected) = v.get_socket s (host_port t.url) in
      if connected
      then send_fragment s' (fragment_upload e x t) (get_elem? fs t.chunk_number)
      else returns s'

  abbrev pub and_send : Outcome v.State → (v.State → Outcome v.State) → Outcome v.State
  and_send spins go = spins
  and_send outside go = outside
  and_send (returns s) go = go s

  -- The loop of Commit, over the targets.
  unfoldable pub send_all :
      EcCommand → Map Bytes → List Bytes → v.State → List RawxUrlSet → Outcome v.State
  unfolding send
  send_all e x fs s [] = returns s
  send_all e x fs s (t ∷ ts) = and_send (send e x fs s t) (λ s'. send_all e x fs s' ts)

  abbrev pub with_success : Outcome v.State → Outcome (v.State × Status)
  with_success spins = spins
  with_success outside = outside
  with_success (returns s) = returns (s, success)

  abbrev pub after_encode : EcUpload → v.State → Option (List Bytes) → Outcome (v.State × Status)
  after_encode u s none = returns (s, status internal_error)
  after_encode u s (some fs) = with_success (send_all u.param u.xattr fs s u.param.targets)

  -- EcUpload::Commit: what it leaves of the services, and its status. The upload stays as it is.
  unfoldable pub commit : Code → Heap → EcUpload → v.State → Outcome (v.State × Status)
  unfolding send_all
  commit c h u s =
      let e = u.param in
      let refused = returns (s, status internal_error) in
      if h.aligned (length u.buffer)
      then (if c.create e.k e.m then after_encode u s (c.encode e.k e.m u.buffer) else refused)
      else refused

  -- A round of the loop of Abort.
  unfoldable pub remove : v.State → RawxUrlSet → v.State
  remove s t =
      let (s', connected) = v.get_socket s (host_port t.url) in
      let (s'', rc) = v.remove s' (set_param new_builder (with_url t)) in
      if connected then (if is_ok rc then (v.commit_removal s'').0 else s'') else s'

  unfoldable pub remove_all : v.State → List RawxUrlSet → v.State
  unfolding remove
  remove_all s [] = s
  remove_all s (t ∷ ts) = remove_all (remove s t) ts

  -- EcUpload::Abort
  unfoldable pub abort : EcUpload → v.State → v.State × Status
  unfolding remove_all
  abort u s = (remove_all s u.param.targets, success)

-- EcRemoval::Prepare, EcRemoval::Commit and EcRemoval::Abort
abbrev pub removal_status : Status
removal_status = success
