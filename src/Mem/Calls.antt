-- ===== src/Mem/Calls.antt =====
-- Histories of calls on a cache of src/oio/blob/mem/blob.cpp, from any number of clients.
use oio_sds_cpp.Prelude.{
  ◌≡◌, true, false, if◌then◌else◌, List, [], ◌∷◌, some, none, arith, Bytes, bytes_eq, bytes_eq_iff,
  Option, ◌++◌,
}
use oio_sds_cpp.Prelude.Map.{Map, find, insert, find-insert, find-erase}
use oio_sds_cpp.Api.{Status, status, success, is_ok, Cause, ok, already, not_found, internal_error}
use oio_sds_cpp.Mem.{Cache, Item, create, commit, abort, write, xattr, remove, get, stat}

pub data CacheCall : Type 0 where
  creates commits aborts removes : Bytes → CacheCall
  writes : Bytes → Bytes → CacheCall
  xattrs : Bytes → Bytes → Bytes → CacheCall

abbrev pub target : CacheCall → Bytes
target (creates name) = name
target (commits name) = name
target (aborts name) = name
target (removes name) = name
target (writes name buf) = name
target (xattrs name k v) = name

unfoldable pub apply : Cache → CacheCall → Cache × Status
apply c (creates name) = create c name
apply c (commits name) = commit c name
apply c (aborts name) = abort c name
apply c (removes name) = (remove c name, success)
apply c (writes name buf) = write c name buf
apply c (xattrs name k v) = xattr c name k v

unfoldable pub run : Cache → List CacheCall → Cache
run c [] = c
run c (call ∷ rest) = run (apply c call).0 rest

-- A call that fails leaves the cache as it was.
pub apply_error_unchanged :
    (c : Cache) (call : CacheCall) → is_ok (apply c call).1 ≡ false → (apply c call).0 ≡ c
unfolding apply create commit abort write xattr
apply_error_unchanged c (creates name) h = ground arith
apply_error_unchanged c _ h = ground arith

-- What one name can hold, and what a call does to it: nothing, an upload in progress, or a blob.
pub data Slot : Type 0 where
  absent : Slot
  uploading : Map Bytes → Bytes → Slot
  stored : Map Bytes → Bytes → Slot

abbrev pub view_item : Option Item → Slot
view_item none = absent
view_item (some it) =
    if it.pending then uploading it.attributes it.content else stored it.attributes it.content

unfoldable pub view : Cache → Bytes → Slot
view c name = view_item (find c.items name)

abbrev pub slot_after : CacheCall → Slot → Slot
slot_after (creates name) absent = uploading [] []
slot_after (commits name) (uploading a x) = stored a x
slot_after (aborts name) (uploading a x) = absent
slot_after (removes name) s = absent
slot_after (writes name buf) (uploading a x) = uploading a (x ++ buf)
slot_after (xattrs name k v) (uploading a x) = uploading (insert a k v) x
slot_after _ s = s

-- The cache implements one small machine for each name: a call moves the slot of its own name as
-- `slot_after` says, and no other slot.
pub view-apply :
    (c : Cache) (call : CacheCall) (j : Bytes)
    → view (apply c call).0 j
      ≡ (if bytes_eq (target call) j then slot_after call (view c j) else view c j)
unfolding view apply create commit abort write xattr remove
view-apply c (creates name) j = grind (arith, find-insert, bytes_eq_iff)
view-apply c (commits name) j = grind (arith, find-insert, bytes_eq_iff)
view-apply c (aborts name) j = grind (arith, find-erase, bytes_eq_iff)
view-apply c (removes name) j = grind (arith, find-erase, bytes_eq_iff)
view-apply c (writes name buf) j = grind (arith, find-insert, bytes_eq_iff)
view-apply c (xattrs name k v) j = grind (arith, find-insert, bytes_eq_iff)

-- The cause that a client sees for a call, by what the name holds.
abbrev pub reply : CacheCall → Slot → Cause
reply (creates name) absent = ok
reply (creates name) _ = already
reply (commits name) (uploading a x) = ok
reply (commits name) absent = not_found
reply (commits name) _ = internal_error
reply (aborts name) (stored a x) = internal_error
reply (aborts name) _ = ok
reply (removes name) _ = ok
reply (writes name buf) (uploading a x) = ok
reply (writes name buf) absent = not_found
reply (writes name buf) _ = already
reply (xattrs name k v) (uploading a x) = ok
reply (xattrs name k v) absent = not_found
reply (xattrs name k v) _ = already

-- The status of a call is decided by the slot of its name alone.
pub reply-apply :
    (c : Cache) (call : CacheCall) → (apply c call).1 ≡ status (reply call (view c (target call)))
unfolding view apply create commit abort write xattr
reply-apply c (creates name) = ground arith
reply-apply c _ = ground arith

pub get-view :
    (c : Cache) (out name : Bytes) {a : Map Bytes} {x : Bytes}
    → view c name ≡ stored a x
    → get c out name ≡ (x, success)
unfolding view get
get-view c out name h = ground arith

pub stat-view :
    (c : Cache) (name : Bytes) {a : Map Bytes} {x : Bytes}
    → view c name ≡ stored a x
    → stat c name ≡ (true, false)
unfolding view stat
stat-view c name h = ground arith
