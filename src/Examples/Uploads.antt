-- ===== src/Examples/Uploads.antt =====
-- Runs of the uploads and the removals of src/oio/blob/kinetic/coro/blob.cpp.
use oio_sds_cpp.Prelude.{◌≡◌, refl, List, [], ◌∷◌, ◌++◌, arith, true, some, Bytes, bytes}
use oio_sds_cpp.Prelude.Map.{Map}
use oio_sds_cpp.Prelude.Decimal.{decimal}
use oio_sds_cpp.Api.{init, prepared, success, network_error, status}
use oio_sds_cpp.Kinetic.Upload.{
  KineticUpload, Put, build, write, commit, prepare, key_of, manifest_suffix, trigger_upload,
  trigger_block, write_round,
}
use oio_sds_cpp.Kinetic.Blocks.{Written, values, write-Written}
use oio_sds_cpp.Kinetic.Manifest.{commit-small_attributes, prepare-two_clients}
use oio_sds_cpp.Kinetic.Rolling.{starts, waits, rolling_delete, take_orders, rolling_delete-Pool}
use oio_sds_cpp.Kinetic.Removal.{KineticRemoval, PendingDelete}

abbrev two_drives : List Bytes
two_drives = bytes "d1" ∷ bytes "d2" ∷ []

-- An upload in blocks of three bytes, with one byte in its buffer.
abbrev started_upload : KineticUpload
started_upload = record (build two_drives 3 (bytes "blob")) { buffer = bytes "a"; step = prepared }

-- Stand for what writes the attributes.
abbrev two_bytes : Map Bytes → Bytes
two_bytes m = bytes "{}"

abbrev four_bytes : Map Bytes → Bytes
four_bytes m = bytes "{ab}"

two_blocks :
    write 9 started_upload (bytes "bcdefg")
    ≡ some (record started_upload {
      next_client = 2;
      ops =
          record { client = some (bytes "d1"); key = bytes "blob-0-3"; value = bytes "abc" }
          ∷ record { client = some (bytes "d2"); key = bytes "blob-1-3"; value = bytes "def" }
          ∷ [];
      buffer = bytes "g";
    })
unfolding write write_round trigger_block trigger_upload decimal
two_blocks = refl

two_at_a_time :
    rolling_delete 2 3 ≡ starts 0 ∷ starts 1 ∷ waits 0 ∷ starts 2 ∷ waits 1 ∷ waits 2 ∷ []
unfolding rolling_delete
two_at_a_time = refl

write-Written_example :
    (v : KineticUpload) × (write 6 started_upload (bytes "bcdefg") ≡ some v)
    × Written started_upload (bytes "bcdefg") v
write-Written_example =
    write-Written 6 started_upload (bytes "bcdefg")
      (record { positive = omega arith; below = omega arith; started = refl; targets = refl })
      (omega arith)

commit-small_attributes_example :
    (v : KineticUpload) × (blocks : List Put) × (manifest : Put) × (commit two_bytes 2
        started_upload
      ≡ some (v, success))
    × (v.ops ≡ blocks ++ manifest ∷ [])
    × (manifest.key ≡ key_of (bytes "blob") manifest_suffix)
    × (values blocks ≡ bytes "a")
    × (manifest.value ≡ bytes "{}")
commit-small_attributes_example =
    commit-small_attributes two_bytes 2 started_upload
      (record { positive = omega arith; below = omega arith; started = refl; targets = refl }) refl
      (omega arith) (omega arith)

prepare-two_clients_example :
    prepare (build two_drives 3 (bytes "blob")) ((true, []) ∷ (true, []) ∷ [])
    ≡ (build two_drives 3 (bytes "blob"), status network_error)
prepare-two_clients_example =
    prepare-two_clients (build two_drives 3 (bytes "blob")) (bytes "d1") (bytes "d2") []
      ((true, []) ∷ (true, []) ∷ []) refl refl

rolling_delete-Pool_example :
    take_orders 2 (some (record { started = 0; waited = 0 })) (rolling_delete 2 3)
    ≡ some (record { started = 3; waited = 3 })
rolling_delete-Pool_example = rolling_delete-Pool 2 3 (omega arith) (omega arith)

abbrev new_removal : KineticRemoval
new_removal = record { ops = []; step = init }

abbrev one_key : List PendingDelete
one_key = record { client = some (bytes "d1"); key = bytes "blob-0-3" } ∷ []
