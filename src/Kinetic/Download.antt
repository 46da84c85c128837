-- ===== src/Kinetic/Download.antt =====
-- KineticDownload of src/oio/blob/kinetic/coro/blob.cpp: the keys of the blocks are sorted by their
-- sequence numbers, and the blocks are read through a window of four running operations.
use oio_sds_cpp.Prelude.{
  ℕ, zero, suc, ltb, Bool, true, false, ◌&&◌, if◌then◌else◌, List, [], ◌∷◌, ◌++◌, Option, some,
  none, length, Bytes, ℤ, to_int32,
}
use oio_sds_cpp.Api.{Status, success, is_ok}
use oio_sds_cpp.Kinetic.Keys.{Parsed, malformed, manifest, block, throws, parse_key}
use oio_sds_cpp.Kinetic.Sorting.{sort}

pub record PendingGet : Type 0 where
  pub sequence : ℕ
  pub size : ℕ
  pub client : Bytes
  pub key : Bytes

pub record KineticDownload : Type 0 where
  pub running : List PendingGet
  pub waiting : List PendingGet

abbrev pub parallel_factor : ℕ
parallel_factor = 4

-- DownloadBuilder::Build
abbrev pub build : KineticDownload
build = record { running = []; waiting = [] }

-- A round of the loop over the listing: `chunks` is built from its front. `none` is an exception.
unfoldable pub add_key : List PendingGet → Bytes → Bytes → Parsed → Option (List PendingGet)
add_key chunks id key malformed = some chunks
add_key chunks id key manifest = some chunks
add_key chunks id key (block seq size) =
    some (record { sequence = seq; size = size; client = id; key = key } ∷ chunks)
add_key chunks id key throws = none

unfoldable pub add_keys : Option (List PendingGet) → List (Bytes × Bytes) → Option (List PendingGet)
unfolding add_key
add_keys none items = none
add_keys (some chunks) [] = some chunks
add_keys (some chunks) ((id, key) ∷ items) = add_keys (add_key chunks id key (parse_key key)) items

queue_chunks : KineticDownload → Option (List PendingGet) → Option (KineticDownload × Status)
queue_chunks d none = none
queue_chunks d (some chunks) =
    some (record d { waiting = d.waiting ++ sort PendingGet.sequence chunks }, success)

-- KineticDownload::Prepare; `rc` and `items` are what the listing gives, each item with the drive that
-- has the key. It is `none` where std::stoi throws.
unfoldable pub prepare :
    KineticDownload → Status → List (Bytes × Bytes) → Option (KineticDownload × Status)
unfolding queue_chunks add_keys
prepare d rc items = if is_ok rc then queue_chunks d (add_keys (some []) items) else some (d, rc)

abbrev pub is_empty : List PendingGet → Bool
is_empty [] = true
is_empty (p ∷ ps) = false

-- KineticDownload::IsEof
abbrev pub is_eof : KineticDownload → Bool
is_eof d = is_empty d.waiting && is_empty d.running

-- The loop of Read that starts the gets.
unfoldable pub fill : List PendingGet → List PendingGet → KineticDownload
fill running [] = record { running = running; waiting = [] }
fill running (p ∷ waiting) =
    let rest = fill (running ++ p ∷ []) waiting in
    if ltb (length running) parallel_factor
    then rest
    else record { running = running; waiting = p ∷ waiting }

unfoldable pub take_first :
    (PendingGet → Bytes) → Bytes → KineticDownload → List PendingGet → KineticDownload × Bytes × ℤ
take_first fetch buf d [] = (d, buf, ℤ.pos 0)
take_first fetch buf d (p ∷ running) =
    (record d { running = running }, fetch p, to_int32 (length (fetch p)))

-- KineticDownload::Read: the download, `*buf` and the result. `fetch` gives the bytes that the reply
-- to a get brings, none if it failed.
unfoldable pub read : (PendingGet → Bytes) → KineticDownload → Bytes → KineticDownload × Bytes × ℤ
unfolding take_first fill
read fetch d buf = let d' = fill d.running d.waiting in take_first fetch buf d' d'.running

-- What a caller gathers who reads until the end; `none` when the fuel ends before.
unfoldable pub read_all : ℕ → (PendingGet → Bytes) → KineticDownload → Option Bytes
read_all zero fetch d = if is_eof d then some [] else none
read_all (suc fuel) fetch d =
    let (d', piece, n) = read fetch d [] in
    let rest = read_all fuel fetch d' in
    if is_eof d then some [] else elim rest [ none ↦ none | some bytes ↦ some (piece ++ bytes) ]
