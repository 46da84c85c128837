-- ===== src/Mem/Steps.antt =====
-- The order of calls on the transactions of src/oio/blob/mem/blob.cpp, whatever other clients of the
-- cache do in between.
use oio_sds_cpp.Prelude.{
  ℕ, suc, ◌≤◌, ◌≡◌, Bool, true, false, if◌then◌else◌, List, [], ◌∷◌, arith, Bytes, bytes_eq,
  bytes_eq_iff, ◌&&◌,
}
use oio_sds_cpp.Api.{Step, prepared, done, is_ok}
use oio_sds_cpp.Api.Protocol.{Advance, stay, prepare, finish}
use oio_sds_cpp.Mem.{Cache}
use oio_sds_cpp.Mem
use oio_sds_cpp.Mem.Upload.{MemUpload}
use oio_sds_cpp.Mem.Upload
use oio_sds_cpp.Mem.Removal.{MemRemoval}
use oio_sds_cpp.Mem.Removal
use oio_sds_cpp.Mem.Calls.{CacheCall, apply, Slot, stored, absent, view}
use oio_sds_cpp.Prelude.Map.{find-erase}

pub data Event : Type 0 where
  prepares commits aborts : Event
  writes : Bytes → Event
  sets_xattr : Bytes → Bytes → Event
  others : CacheCall → Event

-- One event: the upload, the cache, and whether the upload ended by it, with success.
unfoldable pub event : MemUpload → Cache → Event → MemUpload × Cache × Bool
event u c prepares = let (u', c', rc) = Upload.prepare u c in (u', c', false)
event u c commits = let (u', c', rc) = Upload.commit u c in (u', c', is_ok rc)
event u c aborts = let (u', c', rc) = Upload.abort u c in (u', c', is_ok rc)
event u c (writes buf) = (u, Upload.write u buf c, false)
event u c (sets_xattr k v) = (u, Upload.set_xattr u k v c, false)
event u c (others call) = (u, (apply c call).0, false)

abbrev pub count_if : Bool → ℕ → ℕ
count_if true n = suc n
count_if false n = n

abbrev pub is_stored : Slot → Bool
is_stored (stored a x) = true
is_stored _ = false

-- How many of the events ended the upload.
unfoldable pub ends : MemUpload → Cache → List Event → ℕ
ends u c [] = 0
ends u c (e ∷ es) = let (u', c', ended) = event u c e in count_if ended (ends u' c' es)

abbrev pub ends_left : Step → ℕ
ends_left done = 0
ends_left _ = 1

-- Every event takes the upload along the protocol of a transaction.
pub event-Advance : (u : MemUpload) (c : Cache) (e : Event) → Advance u.step (event u c e).0.step
unfolding event Upload.prepare Upload.commit Upload.abort
event-Advance u c prepares = grind (arith, stay, prepare, finish)
event-Advance u c commits = grind (arith, stay, prepare, finish)
event-Advance u c aborts = grind (arith, stay, prepare, finish)
event-Advance u c (writes buf) = stay
event-Advance u c (sets_xattr k v) = stay
event-Advance u c (others call) = stay

event_ends :
    (u : MemUpload) (c : Cache) (e : Event)
    → count_if (event u c e).2 (ends_left (event u c e).0.step) ≤ ends_left u.step
unfolding event Upload.prepare Upload.commit Upload.abort
event_ends u c prepares = ground arith
event_ends u c commits = ground arith
event_ends u c aborts = ground arith
event_ends u c (writes buf) = omega arith
event_ends u c (sets_xattr k v) = omega arith
event_ends u c (others call) = omega arith

ends-le : (u : MemUpload) (c : Cache) (es : List Event) → ends u c es ≤ ends_left u.step
unfolding ends
ends-le u c [] = omega arith
ends-le u c (e ∷ es) = ground (arith, event_ends u c e, ends-le (event u c e).0 (event u c e).1 es)

-- However its calls are ordered and whatever the other clients do, a new upload is committed or
-- aborted with success at most once.
pub ends_at_most_once :
    (name : Bytes) (c : Cache) (es : List Event) → ends (Upload.build name) c es ≤ 1
ends_at_most_once name c es = ends-le (Upload.build name) c es

-- A removal takes away the blob that it was prepared for, and nothing that is still being uploaded.
pub removal_commits :
    (r : MemRemoval) (c : Cache) (j : Bytes)
    → r.step ≡ prepared
    → view (Removal.commit r c).1 j
      ≡ (if is_stored (view c r.name) && bytes_eq r.name j then absent else view c j)
unfolding Removal.commit Mem.stat Mem.remove view
removal_commits r c j h = grind (arith, find-erase, bytes_eq_iff)
