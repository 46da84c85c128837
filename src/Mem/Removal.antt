-- ===== src/Mem/Removal.antt =====
-- MemRemoval of src/oio/blob/mem/blob.cpp.
use oio_sds_cpp.Prelude.{Bytes, not, ◌||◌, if◌then◌else◌}
use oio_sds_cpp.Api.{Status, Step, init, prepared, done, status, success, not_found, internal_error}
use oio_sds_cpp.Mem
use oio_sds_cpp.Mem.{Cache}

pub record MemRemoval : Type 0 where
  pub name : Bytes
  pub step : Step

-- RemovalBuilder::Build
abbrev pub build : Bytes → MemRemoval
build name = record { name = name; step = init }

prepare_at : Step → MemRemoval → Cache → MemRemoval × Status
prepare_at init r c =
    let (present, pending) = Mem.stat c r.name in
    if not present || pending
    then (r, status not_found)
    else (record r { step = prepared }, success)
prepare_at _ r c = (r, status internal_error)

-- MemRemoval::Prepare
unfoldable pub prepare : MemRemoval → Cache → MemRemoval × Status
unfolding prepare_at
prepare r c = prepare_at r.step r c

commit_at : Step → MemRemoval → Cache → MemRemoval × Cache × Status
commit_at prepared r c =
    let (present, pending) = Mem.stat c r.name in
    if not present || pending
    then (r, c, status not_found)
    else (record r { step = done }, Mem.remove c r.name, success)
commit_at _ r c = (r, c, status internal_error)

-- MemRemoval::Commit
unfoldable pub commit : MemRemoval → Cache → MemRemoval × Cache × Status
unfolding commit_at
commit r c = commit_at r.step r c

abort_at : Step → MemRemoval → MemRemoval × Status
abort_at prepared r = (record r { step = done }, success)
abort_at _ r = (r, status internal_error)

-- MemRemoval::Abort
unfoldable pub abort : MemRemoval → MemRemoval × Status
unfolding abort_at
abort r = abort_at r.step r
