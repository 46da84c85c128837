-- ===== src/Router/Upload.antt =====
-- RouterUpload of src/oio/blob/router/blob.cpp: a chunk is gathered in a buffer, and goes to the backend
-- that the encoding names when the upload is committed.
use oio_sds_cpp.Prelude.{
  ℕ, zero, suc, ◌-◌, ◌+◌, ◌%◌, Bool, if◌then◌else◌, [], ◌∷◌, ◌++◌, Option, some, none, Bytes,
  length, take, drop, min, u32_mod,
}
use oio_sds_cpp.Prelude.Map.{Map, insert}
use oio_sds_cpp.Api.{Status, success, is_ok}

-- An upload of a backend, made by its builder: the calls that a router makes on it.
pub record Backend : Type 1 where
  pub State : Type 0
  pub start : Map Bytes → State
  pub prepare : State → State × Status
  pub write : State → Bytes → State
  pub commit : State → State × Status
  pub abort : State → State × Status

pub record RouterUpload : Type 0 where
  pub buffer : Bytes
  pub xattrs : Map Bytes
  pub chunk_size : ℕ

-- RouterUpload::SetXattr
abbrev pub set_xattr : RouterUpload → Bytes → Bytes → RouterUpload
set_xattr u k v = record u { xattrs = insert u.xattrs k v }

-- RouterUpload::Prepare
abbrev pub prepare : RouterUpload → RouterUpload × Status
prepare u = (u, success)

-- What a round of the loop of Write takes: min(avail, len), on 32 bits.
abbrev pub local : ℕ → ℕ → ℕ → ℕ
local chunk_size oldsize len = min ((chunk_size + u32_mod - oldsize) % u32_mod) len

-- The loop of RouterUpload::Write; `none` when the fuel ends before it.
unfoldable pub write_loop : ℕ → ℕ → Bytes → Bytes → Option Bytes
write_loop fuel chunk_size buffer [] = some buffer
write_loop zero chunk_size buffer (b ∷ buf) = none
write_loop (suc fuel) chunk_size buffer (b ∷ buf) =
    let n = local chunk_size (length buffer) (length (b ∷ buf)) in
    write_loop fuel chunk_size (buffer ++ take n (b ∷ buf)) (drop n (b ∷ buf))

abbrev pub with_buffer : RouterUpload → Option Bytes → Option RouterUpload
with_buffer u none = none
with_buffer u (some buffer) = some (record u { buffer = buffer })

-- RouterUpload::Write
unfoldable pub write : ℕ → RouterUpload → Bytes → Option RouterUpload
unfolding write_loop
write fuel u buf = with_buffer u (write_loop fuel u.chunk_size u.buffer buf)

-- The upload that Commit makes of a backend, once it is built. The attributes that the builder of a
-- rawx upload looks up are taken to be set: where one is missing the source reads past its map.
unfoldable pub route : (b : Backend) → Map Bytes → Bytes → b.State
route b xattrs buffer =
    let (s, rc) = b.prepare (b.start xattrs) in
    if is_ok rc then (b.commit (b.write s buffer)).0 else (b.abort s).0

-- RouterUpload::Commit; the backend is `none` where no socket is open to a rawx service.
unfoldable pub commit : RouterUpload → (b : Backend) → Bool → RouterUpload × Option b.State × Status
unfolding route
commit u b connected = (u, (if connected then some (route b u.xattrs u.buffer) else none), success)

-- RouterUpload::Abort
abbrev pub abort : RouterUpload → RouterUpload × Status
abort u = (u, success)
