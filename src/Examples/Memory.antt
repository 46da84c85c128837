-- ===== src/Examples/Memory.antt =====
-- Runs of the cache and the transactions of src/oio/blob/mem/blob.cpp.
use oio_sds_cpp.Prelude.Map
use oio_sds_cpp.Mem
use oio_sds_cpp.Prelude.{
  ◌≡◌, bytes_eq, ap, refl, List, [], ◌∷◌, Bytes, bytes, arith, to_int32, if◌then◌else◌,
}
use oio_sds_cpp.Api.{success, status}
use oio_sds_cpp.Mem.{Cache, empty}
use oio_sds_cpp.Mem.Calls.{
  CacheCall, creates, commits, writes, aborts, removes, apply, run, view, view-apply, reply,
  reply-apply, stored, slot_after, target,
}
use oio_sds_cpp.Mem.Lifetime.{stored_stable}
use oio_sds_cpp.Mem.RoundTrip.{Turn, ours, theirs, exchange, written, upload-download}

abbrev name : Bytes
name = bytes "a"

abbrev history : List CacheCall
history = creates name ∷ writes name (1 ∷ 2 ∷ []) ∷ commits name ∷ creates name ∷ []

abbrev turns_of_two : List Turn
turns_of_two = ours (1 ∷ []) ∷ theirs (creates (bytes "b")) ∷ ours (2 ∷ 3 ∷ []) ∷ []

stored_view : view (run empty history) name ≡ stored [] (1 ∷ 2 ∷ [])
unfolding run apply view Mem.create Mem.write Mem.commit Map.find Map.insert bytes_eq
stored_view = refl

view-apply_example :
    view (apply empty (creates name)).0 name
    ≡ (if bytes_eq name name then slot_after (creates name) (view empty name) else view empty name)
view-apply_example = view-apply empty (creates name) name

reply-apply_example :
    (apply empty (commits name)).1 ≡ status (reply (commits name) (view empty name))
reply-apply_example = reply-apply empty (commits name)

abbrev later : List CacheCall
later = aborts name ∷ writes name (9 ∷ []) ∷ removes (bytes "b") ∷ []

stored_stable_example : view (run (run empty history) later) name ≡ stored [] (1 ∷ 2 ∷ [])
stored_stable_example =
    stored_stable (run empty history) later name [] (1 ∷ 2 ∷ []) stored_view
      ((λ e. cc), ((λ e. cc), ((λ e. grind (arith, ap target e)), tt)))

upload-download_example :
    exchange name empty turns_of_two []
    ≡ (success, success, success, written turns_of_two, to_int32 3)
upload-download_example =
    upload-download name empty turns_of_two [] (unfold view Map.find in refl)
      (tt, ((λ e. grind arith), (tt, tt)))
