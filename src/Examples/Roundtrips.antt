-- ===== src/Examples/Roundtrips.antt =====
-- Runs from uploads to downloads of src/oio/blob/kinetic/coro/blob.cpp.
use oio_sds_cpp.Prelude.{
  ◌≡◌, refl, List, [], ◌∷◌, arith, some, Bytes, bytes, bytes_eq, if◌then◌else◌,
}
use oio_sds_cpp.Prelude.Map.{Map}
use oio_sds_cpp.Prelude.Decimal.{decimal}
use mathlib.Core.List.{Permᴰ}
use oio_sds_cpp.Api.{done, success}
use oio_sds_cpp.Kinetic.Upload.{
  KineticUpload, Put, write, commit, trigger_upload, trigger_block, write_round, flush,
}
use oio_sds_cpp.Kinetic.Download.{KineticDownload, build, prepare, read, read_all}
use oio_sds_cpp.Kinetic.Gathered.{gets_from}
use oio_sds_cpp.Kinetic.Window.{OneRead, read-OneRead}
use oio_sds_cpp.Kinetic.RoundTrip.{ready_upload, fetch_from, write-download, prepare-listed}

abbrev two_drives : List Bytes
two_drives = bytes "d1" ∷ bytes "d2" ∷ []

abbrev new_upload : KineticUpload
new_upload = ready_upload two_drives 3 (bytes "blob") []

abbrev braces : Map Bytes → Bytes
braces m = bytes "{}"

abbrev first_block : Put
first_block = record { client = some (bytes "d1"); key = bytes "blob-0-3"; value = bytes "abc" }

abbrev second_block : Put
second_block = record { client = some (bytes "d2"); key = bytes "blob-1-1"; value = bytes "d" }

abbrev the_manifest : Put
the_manifest = record { client = some (bytes "d1"); key = bytes "blob-#"; value = bytes "{}" }

abbrev written : KineticUpload
written = record new_upload { next_client = 1; ops = first_block ∷ []; buffer = bytes "d" }

abbrev committed : KineticUpload
committed = record new_upload {
  next_client = 3;
  ops = first_block ∷ second_block ∷ the_manifest ∷ [];
  step = done;
}

new_upload-write : write 4 new_upload (bytes "abcd") ≡ some written
unfolding write write_round trigger_block trigger_upload decimal
new_upload-write = refl

written-commit : commit braces 3 written ≡ some (committed, success)
unfolding commit flush write write_round trigger_block trigger_upload decimal
written-commit = refl

-- What the two drives hold.
abbrev on_drives : Bytes → Bytes → Bytes
on_drives id key =
    if bytes_eq key (bytes "blob-0-3")
    then bytes "abc"
    else if bytes_eq key (bytes "blob-1-1")
    then bytes "d"
    else bytes "{}"

-- The second drive answers first.
abbrev items : List (Bytes × Bytes)
items =
    (bytes "d2", bytes "blob-1-1")
    ∷ (bytes "d1", bytes "blob-0-3")
    ∷ (bytes "d1", bytes "blob-#")
    ∷ []

write-download_example :
    (d : KineticDownload) × (prepare build success items ≡ some (d, success))
    × (read_all 3 (fetch_from on_drives) d ≡ some (bytes "abcd"))
unfolding bytes_eq
write-download_example =
    write-download two_drives 3 (bytes "blob") [] (bytes "abcd") braces written committed items
      on_drives (omega arith) (omega arith) (omega arith) new_upload-write written-commit
      (Permᴰ.swap refl refl) (refl, (refl, (refl, tt)))

prepare-listed_example :
    prepare build success items
    ≡ some
        (record { running = []; waiting = gets_from 0 (first_block ∷ second_block ∷ []) }, success)
unfolding decimal
prepare-listed_example =
    prepare-listed (bytes "blob") (first_block ∷ second_block ∷ []) the_manifest items
      (refl, (refl, tt)) (omega arith, (omega arith, tt)) (omega arith) refl (Permᴰ.swap refl refl)

abbrev two_waiting : KineticDownload
two_waiting = record { running = []; waiting = gets_from 0 (first_block ∷ second_block ∷ []) }

read-OneRead_example :
    OneRead
      (fetch_from on_drives)
      (record { sequence = 0; size = 3; client = bytes "d1"; key = bytes "blob-0-3" })
      (gets_from 1 (second_block ∷ []))
      (read (fetch_from on_drives) two_waiting [])
read-OneRead_example =
    read-OneRead (fetch_from on_drives) two_waiting []
      (record { sequence = 0; size = 3; client = bytes "d1"; key = bytes "blob-0-3" })
      (gets_from 1 (second_block ∷ [])) refl (omega arith)
