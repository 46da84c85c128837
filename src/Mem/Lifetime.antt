-- ===== src/Mem/Lifetime.antt =====
-- What histories of calls on a cache of src/oio/blob/mem/blob.cpp do to one name.
use oio_sds_cpp.Prelude.{
  ◌≡◌, ◌≢◌, refl, ◌∙◌, if◌then◌else◌, List, [], ◌∷◌, arith, Bytes, bytes_eq, bytes_eq_iff, All, ap,
}
use oio_sds_cpp.Prelude.Map.{Map}
use oio_sds_cpp.Mem.{Cache}
use oio_sds_cpp.Mem.Calls.{
  CacheCall, creates, commits, aborts, removes, writes, xattrs, Slot, stored, target, slot_after,
  apply, run, view, view-apply,
}

-- The slot of a name after a history, by the calls on that name alone.
unfoldable pub slots : Bytes → Slot → List CacheCall → Slot
slots j s [] = s
slots j s (call ∷ rest) = slots j (if bytes_eq (target call) j then slot_after call s else s) rest

-- After any history, every name holds what the calls on that name alone have made of it.
pub view-run :
    (c : Cache) (calls : List CacheCall) (j : Bytes)
    → view (run c calls) j ≡ slots j (view c j) calls
unfolding run slots
view-run c [] j = refl
view-run c (call ∷ rest) j =
    view-run (apply c call).0 rest j ∙ ap (λ s. slots j s rest) (view-apply c call j)

slots-stored :
    (j : Bytes) (a : Map Bytes) (x : Bytes) (calls : List CacheCall)
    → All (λ call. call ≢ removes j) calls
    → slots j (stored a x) calls ≡ stored a x
unfolding slots
slots-stored j a x [] h = refl
slots-stored j a x (creates name ∷ rest) h = ground (arith, slots-stored j a x rest h.1)
slots-stored j a x (commits name ∷ rest) h = ground (arith, slots-stored j a x rest h.1)
slots-stored j a x (aborts name ∷ rest) h = ground (arith, slots-stored j a x rest h.1)
slots-stored j a x (removes name ∷ rest) h =
    ground (arith, slots-stored j a x rest h.1, bytes_eq_iff name j, h.0)
slots-stored j a x (writes name buf ∷ rest) h = ground (arith, slots-stored j a x rest h.1)
slots-stored j a x (xattrs name k v ∷ rest) h = ground (arith, slots-stored j a x rest h.1)

-- A committed blob keeps its content and attributes through any history in which nobody removes it.
pub stored_stable :
    (c : Cache) (calls : List CacheCall) (j : Bytes) (a : Map Bytes) (x : Bytes)
    → view c j ≡ stored a x
    → All (λ call. call ≢ removes j) calls
    → view (run c calls) j ≡ stored a x
stored_stable c calls j a x h keeps =
    view-run c calls j ∙ ap (λ s. slots j s calls) h ∙ slots-stored j a x calls keeps
