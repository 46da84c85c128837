-- ===== src/Kinetic/Removal.antt =====
-- KineticRemoval and KineticUpload::Abort of src/oio/blob/kinetic/coro/blob.cpp.
use oio_sds_cpp.Prelude.{
  ◌+◌, ◌≤◌, ◌≡◌, refl, ap, true, if◌then◌else◌, List, [], ◌++◌, map, Option, some, length, Bytes,
  arith, u32_mod,
}
use oio_sds_cpp.Api.{Status, Step, init, prepared, done, status, success, internal_error, is_ok}
use oio_sds_cpp.Kinetic.Upload.{KineticUpload, Put}
use oio_sds_cpp.Kinetic.Rolling.{Order, take_orders, rolling_delete, rolling_delete-Pool}

-- PendingDelete: the key and the drive it is removed from.
pub record PendingDelete : Type 0 where
  pub client : Option Bytes
  pub key : Bytes

-- PendingPut::Delete
abbrev pub delete_of : Put → PendingDelete
delete_of p = record { client = p.client; key = p.key }

-- The removals that an abort sends, and in which order it sends and awaits them.
pub record Aborted : Type 0 where
  pub upload : KineticUpload
  pub deletes : List PendingDelete
  pub orders : List Order
  pub answer : Status

abort_at : Step → KineticUpload → Aborted
unfolding rolling_delete
abort_at prepared u = record {
  upload = record u { step = done };
  deletes = map delete_of u.ops;
  orders = rolling_delete 8 (length u.ops);
  answer = success;
}
abort_at _ u = record { upload = u; deletes = []; orders = []; answer = status internal_error }

-- KineticUpload::Abort
unfoldable pub abort : KineticUpload → Aborted
unfolding abort_at
abort u = abort_at u.step u

-- KineticRemoval
pub record KineticRemoval : Type 0 where
  pub ops : List PendingDelete
  pub step : Step

removal_prepare_at : Step → KineticRemoval → Status → List PendingDelete → KineticRemoval × Status
removal_prepare_at init r rc items =
    if is_ok rc then (record { ops = r.ops ++ items; step = prepared }, rc) else (r, rc)
removal_prepare_at _ r rc items = (r, status internal_error)

-- KineticRemoval::Prepare; `rc` and `items` are what the listing of the drives gives.
unfoldable pub removal_prepare :
    KineticRemoval → Status → List PendingDelete → KineticRemoval × Status
unfolding removal_prepare_at
removal_prepare r rc items = removal_prepare_at r.step r rc items

removal_commit_at : Step → KineticRemoval → KineticRemoval × List Order × Status
unfolding rolling_delete
removal_commit_at prepared r = (record r { step = done }, rolling_delete 8 (length r.ops), success)
removal_commit_at _ r = (r, [], status internal_error)

-- KineticRemoval::Commit
unfoldable pub removal_commit : KineticRemoval → KineticRemoval × List Order × Status
unfolding removal_commit_at
removal_commit r = removal_commit_at r.step r

removal_abort_at : Step → KineticRemoval → KineticRemoval × Status
removal_abort_at prepared r = (record r { step = done }, success)
removal_abort_at _ r = (r, status internal_error)

-- KineticRemoval::Abort
unfoldable pub removal_abort : KineticRemoval → KineticRemoval × Status
unfolding removal_abort_at
removal_abort r = removal_abort_at r.step r

-- A removal whose listing names fewer keys than an unsigned int counts: it is prepared with these keys,
-- its commit sends and awaits a removal for each of them, at most eight at a time, and a second commit
-- or an abort after it sends nothing.
pub removal_removes_all :
    (r : KineticRemoval) (rc : Status) (items : List PendingDelete)
    → r.step ≡ init
    → r.ops ≡ []
    → is_ok rc ≡ true
    → length items + 8 ≤ u32_mod
    → (p : KineticRemoval) × (d : KineticRemoval) × (orders : List Order) × (removal_prepare r rc
          items
        ≡ (p, rc))
      × (removal_commit p ≡ (d, orders, success))
      × (d.ops ≡ items)
      × (take_orders 8 (some (record { started = 0; waited = 0 })) orders
          ≡ some (record { started = length items; waited = length items }))
      × (removal_commit d ≡ (d, [], status internal_error))
      × (removal_abort d ≡ (d, status internal_error))
unfolding removal_prepare removal_commit removal_abort
removal_removes_all r rc items s e k b = (
  record { ops = items; step = prepared },
  record { ops = items; step = done },
  rolling_delete 8 (length items),
  simp (s, e, k),
  refl,
  refl,
  rolling_delete-Pool 8 (length items) (omega arith) b,
  refl,
  refl,
)

-- An abort of a prepared upload that has put fewer keys than an unsigned int counts ends it with
-- success, and sends and awaits a removal for the drive and key of each put, at most eight at a time.
pub abort-Pool :
    (u : KineticUpload)
    → u.step ≡ prepared
    → length u.ops + 8 ≤ u32_mod
    → ((abort u).answer ≡ success)
      × ((abort u).upload ≡ record u { step = done })
      × ((abort u).deletes ≡ map delete_of u.ops)
      × (take_orders 8 (some (record { started = 0; waited = 0 })) (abort u).orders
          ≡ some (record { started = length u.ops; waited = length u.ops }))
unfolding abort
abort-Pool u p b =
    let prepared_case : abort u ≡ abort_at prepared u = ap (λ s. abort_at s u) p in
    (
      ap Aborted.answer prepared_case,
      ap Aborted.upload prepared_case,
      ap Aborted.deletes prepared_case,
      simp p (rolling_delete-Pool 8 (length u.ops) (omega arith) b),
    )
