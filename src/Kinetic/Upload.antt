-- ===== src/Kinetic/Upload.antt =====
-- KineticUpload of src/oio/blob/kinetic/coro/blob.cpp: a blob is cut into blocks, which are put on the
-- drives in turn, and a manifest with the attributes closes it.
use oio_sds_cpp.Prelude.{
  ℕ, zero, suc, ◌+◌, ◌-◌, ◌%◌, leb, ◌==◌, ◌&&◌, ◌||◌, not, Bool, true, false, if◌then◌else◌, List,
  [], ◌∷◌, ◌++◌, map, Option, some, none, length, take, drop, get_elem?, Bytes, u32_mod,
}
use oio_sds_cpp.Prelude.Decimal.{decimal}
use oio_sds_cpp.Prelude.Map.{Map, insert}
use oio_sds_cpp.Api.{
  Status, Step, init, prepared, done, status, success, internal_error, network_error, already,
}

-- PendingPut, once it is started: the drive, the key, and the value that Put::Value took.
pub record Put : Type 0 where
  pub client : Option Bytes
  pub key : Bytes
  pub value : Bytes

pub record KineticUpload : Type 0 where
  pub clients : List Bytes
  pub next_client : ℕ
  pub ops : List Put
  pub buffer : Bytes
  pub buffer_limit : ℕ
  pub chunkid : Bytes
  pub xattr : Map Bytes
  pub step : Step

-- UploadBuilder::Build
abbrev pub build : List Bytes → ℕ → Bytes → KineticUpload
build targets block_size name = record {
  clients = targets;
  next_client = 0;
  ops = [];
  buffer = [];
  buffer_limit = block_size;
  chunkid = name;
  xattr = [];
  step = init;
}

abbrev pub is_prepared : Step → Bool
is_prepared prepared = true
is_prepared _ = false

abbrev pub dash : ℕ
dash = b'-'

-- The key of a block or of the manifest.
abbrev pub key_of : Bytes → Bytes → Bytes
key_of chunkid suffix = chunkid ++ (dash ∷ suffix)

abbrev pub block_suffix : ℕ → ℕ → Bytes
block_suffix n size = decimal n ++ (dash ∷ decimal size)

abbrev pub manifest_suffix : Bytes
manifest_suffix = b'#' ∷ []

abbrev pub is_empty {ℓ} : {A : Type ℓ} → List A → Bool
is_empty [] = true
is_empty (x ∷ xs) = false

-- The assertions of TriggerUpload(suffix): `!chunkid.empty()` and `clients.size() > 0`.
abbrev pub can_trigger : KineticUpload → Bool
can_trigger u = not (is_empty u.chunkid) && not (is_empty u.clients)

-- TriggerUpload(suffix), behind its assertions: the buffer leaves with the next drive.
unfoldable pub trigger_upload : KineticUpload → Bytes → KineticUpload
trigger_upload u suffix = record u {
  next_client = (u.next_client + 1) % u32_mod;
  ops =
      u.ops
      ++ record {
        client = get_elem? u.clients (u.next_client % length u.clients);
        key = key_of u.chunkid suffix;
        value = u.buffer;
      }
        ∷ [];
  buffer = [];
}

-- TriggerUpload()
unfoldable pub trigger_block : KineticUpload → KineticUpload
unfolding trigger_upload
trigger_block u = trigger_upload u (block_suffix u.next_client (length u.buffer))

-- KineticUpload::SetXattr
abbrev pub set_xattr : KineticUpload → Bytes → Bytes → KineticUpload
set_xattr u k v = record u { xattr = insert u.xattr k v }

-- Whether a round of the loop of Write passes its assertions: a full buffer is to leave.
unfoldable pub round_asserts : KineticUpload → Bytes → Bool
round_asserts u buf =
    not (leb u.buffer_limit (length (u.buffer ++ take (u.buffer_limit - length u.buffer) buf)))
    || can_trigger u

-- The body of the loop of Write: what fits goes to the buffer, and a full buffer leaves.
unfoldable pub write_round : KineticUpload → Bytes → KineticUpload
write_round u buf =
    let u' = record u { buffer = u.buffer ++ take (u.buffer_limit - length u.buffer) buf } in
    if leb u'.buffer_limit (length u'.buffer) then trigger_block u' else u'

-- The loop of KineticUpload::Write; `none` when an assertion fails, or when the fuel ends before it.
unfoldable pub write_loop : ℕ → KineticUpload → Bytes → Option KineticUpload
unfolding write_round round_asserts
write_loop fuel u [] = some u
write_loop zero u (b ∷ buf) = none
write_loop (suc fuel) u (b ∷ buf) =
    let rest =
      write_loop fuel (write_round u (b ∷ buf))
        (drop (u.buffer_limit - length u.buffer) (b ∷ buf)) in
    if round_asserts u (b ∷ buf) then rest else none

-- `step == Step::Prepared` and `clients.size() > 0`
abbrev pub write_asserts : KineticUpload → Bool
write_asserts u = is_prepared u.step && not (is_empty u.clients)

-- KineticUpload::Write, with its assertions on the step and on the clients.
unfoldable pub write : ℕ → KineticUpload → Bytes → Option KineticUpload
unfolding write_loop
write fuel u buf = if write_asserts u then write_loop fuel u buf else none

-- `if (buffer.size() > 0) TriggerUpload();`
unfoldable pub flush : KineticUpload → KineticUpload
flush u = if length u.buffer == 0 then u else trigger_block u

finish : Option KineticUpload → Option (KineticUpload × Status)
unfolding trigger_upload
finish none = none
finish (some u) =
    if can_trigger u
    then some (record (trigger_upload u manifest_suffix) { step = done }, success)
    else none

commit_at : Step → (Map Bytes → Bytes) → ℕ → KineticUpload → Option (KineticUpload × Status)
unfolding finish
commit_at prepared json fuel u =
    if (length u.buffer == 0) || can_trigger u
    then finish (write fuel (flush u) (json u.xattr))
    else none
commit_at _ json fuel u = some (u, status internal_error)

-- KineticUpload::Commit; `json` is what rapidjson writes for the attributes, and `none` is an
-- assertion that fails.
unfoldable pub commit : (Map Bytes → Bytes) → ℕ → KineticUpload → Option (KineticUpload × Status)
unfolding commit_at
commit json fuel u = commit_at u.step json fuel u

-- A GetKeyRange: its status, and the keys that it has gathered (RPC.cpp).
pub record KeyRange : Type 0 where
  pub ok : Bool
  pub keys : List Bytes

-- A reply to a GetKeyRange: whether it is a success, and its keys.
abbrev pub Reply : Type 0
Reply = Bool × List Bytes

-- GetKeyRange::GetKeyRange
abbrev pub new_range : KeyRange
new_range = record { ok = false; keys = [] }

-- GetKeyRange::ManageReply
unfoldable pub range_reply : KeyRange → Reply → KeyRange
range_reply r (good, keys) =
    if good then record { ok = true; keys = r.keys ++ keys } else record r { ok = false }

unfoldable pub range_replies : KeyRange → List Reply → KeyRange
unfolding range_reply
range_replies r [] = r
range_replies r (a ∷ replies) = range_replies (range_reply r a) replies

-- The ranges of `Prepare`, one for each client. The index `i` of its second loop stays 0, so that
-- every client is sent the first range.
asked_ranges : List Bytes → List Reply → List KeyRange
unfolding range_replies
asked_ranges [] replies = []
asked_ranges (c ∷ rest) replies = range_replies new_range replies ∷ map (λ _. new_range) rest

abbrev pub all_ok : List KeyRange → Bool
all_ok [] = true
all_ok (r ∷ rs) = r.ok && all_ok rs

abbrev pub no_keys : List KeyRange → Bool
no_keys [] = true
no_keys (r ∷ rs) = (length r.keys == 0) && no_keys rs

prepare_at : Step → KineticUpload → List Reply → KineticUpload × Status
unfolding asked_ranges
prepare_at init u replies =
    let ranges = asked_ranges u.clients replies in
    if not (all_ok ranges)
    then (u, status network_error)
    else if not (no_keys ranges)
    then (u, status already)
    else (record u { step = prepared }, success)
prepare_at _ u replies = (u, status internal_error)

-- KineticUpload::Prepare; `replies` are the replies of the clients, in the order of their arrival.
unfoldable pub prepare : KineticUpload → List Reply → KineticUpload × Status
unfolding prepare_at
prepare u replies = prepare_at u.step u replies
