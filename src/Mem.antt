-- ===== src/Mem.antt =====
-- src/oio/blob/mem/blob.hpp and blob.cpp: the in-memory cache that the uploads, downloads and removals
-- of this backend share. Each method takes the cache and returns it with the method's status.
pub mod Upload
pub mod Download
pub mod Removal
pub mod Calls
pub mod Lifetime
pub mod RoundTrip
pub mod Steps
use oio_sds_cpp.Prelude.{Bool, true, false, Option, none, some, [], ◌++◌, if◌then◌else◌, Bytes}
use oio_sds_cpp.Prelude.Map.{Map, find, insert, erase}
use oio_sds_cpp.Api.{Status, status, success, already, not_found, internal_error}
use oio_sds_cpp.Api

pub record Item : Type 0 where
  pub attributes : Map Bytes
  pub content : Bytes
  pub pending : Bool

-- Item()
abbrev pub new_item : Item
new_item = record { attributes = []; content = []; pending = true }

-- Item::Validate
abbrev pub validate : Item → Item
validate it = record it { pending = false }

-- Item::Write
abbrev pub append_item : Item → Bytes → Item
append_item it buf = record it { content = it.content ++ buf }

-- Item::Xattr
abbrev pub set_attribute : Item → Bytes → Bytes → Item
set_attribute it k v = record it { attributes = insert it.attributes k v }

pub record Cache : Type 0 where
  pub items : Map Item

abbrev pub empty : Cache
empty = record { items = [] }

abbrev put : Cache → Bytes → Item → Cache
put c name it = record { items = insert c.items name it }

-- Cache::Create
unfoldable pub create : Cache → Bytes → Cache × Status
create c name = elim (find c.items name) [
  | some _ ↦ (c, status already)
  | none ↦ (put c name new_item, success)
]

-- Cache::Commit
unfoldable pub commit : Cache → Bytes → Cache × Status
commit c name = elim (find c.items name) [
  | none ↦ (c, status not_found)
  | some it ↦ if it.pending then (put c name (validate it), success) else (c, status internal_error)
]

-- Cache::Abort
unfoldable pub abort : Cache → Bytes → Cache × Status
abort c name = elim (find c.items name) [
  | none ↦ (c, success)
  | some it ↦
      if it.pending
      then (record { items = erase c.items name }, success)
      else (c, status internal_error)
]

-- Cache::Write
unfoldable pub write : Cache → Bytes → Bytes → Cache × Status
write c name buf = elim (find c.items name) [
  | some it ↦ if it.pending then (put c name (append_item it buf), success) else (c, status already)
  | none ↦ (c, status not_found)
]

-- Cache::Xattr
unfoldable pub xattr : Cache → Bytes → Bytes → Bytes → Cache × Status
xattr c name k v = elim (find c.items name) [
  | none ↦ (c, status not_found)
  | some it ↦
      if it.pending then (put c name (set_attribute it k v), success) else (c, status already)
]

-- Cache::Get; the second argument is what `*out` held before.
unfoldable pub get : Cache → Bytes → Bytes → Bytes × Status
get c out name = elim (find c.items name) [
  | none ↦ (out, status not_found)
  | some it ↦ (it.content, success)
]

-- Cache::Stat, as (present, pending).
unfoldable pub stat : Cache → Bytes → Bool × Bool
stat c name = elim (find c.items name) [ none ↦ (false, false) | some it ↦ (true, it.pending) ]

-- Cache::Remove
unfoldable pub remove : Cache → Bytes → Cache
remove c name = record { items = erase c.items name }
