-- ===== src/Kinetic/Commands.antt =====
-- The exchanges of src/oio/blob/kinetic/coro/RPC.cpp: Put, Get, Delete, GetKeyRange and GetNext.
use oio_sds_cpp.Prelude.{
  ℕ, Bool, true, false, if◌then◌else◌, List, [], ◌∷◌, ◌++◌, Option, none, some, Bytes, not, ◌==◌,
}
use oio_sds_cpp.Kinetic.Exchange.{
  Exchange, new_exchange, Command, KeyValue, KeyRange, MessageType, put, get, delete, get_key_range,
  get_next, write_back, write_through, Codec,
}

abbrev pub with_key_value : Exchange → KeyValue → Exchange
with_key_value x kv = record x { cmd = record x.cmd { key_value = kv } }

abbrev with_range : Exchange → KeyRange → Exchange
with_range x r = record x { cmd = record x.cmd { range = r } }

abbrev typed : MessageType → Exchange
typed t = record new_exchange {
  cmd = record new_exchange.cmd { header = record new_exchange.cmd.header { message_type = t } };
}

-- Exchange::checkStatus, of the command of a reply
abbrev pub check_status : Exchange → Command → Exchange
check_status x rep = record x { status = rep.succeeds }

-- Exchange::ManageError
abbrev pub manage_error : Exchange → Exchange
manage_error x = record x { status = false }

-- Key of Delete, Get, GetNext and Put
abbrev pub set_key : Exchange → Bytes → Exchange
set_key x k = with_key_value x (record x.cmd.key_value { key = some k })

-- Delete::Delete
abbrev pub new_delete : Exchange
new_delete =
    let x = typed delete in
    with_key_value x
      (record x.cmd.key_value { synchronization = write_back; sha1_algorithm = true })

-- An exchange with what Steal takes: the value of Get, the keys of GetKeyRange, the key of GetNext.
pub record Fetching (A : Type 0) : Type 0 where
  pub exchange : Exchange
  pub out : A

abbrev hashed : MessageType → Exchange
hashed t = let x = typed t in with_key_value x (record x.cmd.key_value { sha1_algorithm = true })

-- Get::Get
abbrev pub new_get : Fetching Bytes
new_get = record { exchange = hashed get; out = [] }

-- Get::ManageReply, of the command and the value of a reply
unfoldable pub get_manage_reply : Fetching Bytes → Command → Bytes → Fetching Bytes
get_manage_reply g rep value = record {
  exchange = check_status g.exchange rep;
  out = if rep.succeeds then value else g.out;
}

-- Steal, into a vector or a text: both are swapped.
abbrev pub steal : {A : Type 0} → Fetching A → A → Fetching A × A
steal g v = (record g { out = v }, g.out)

-- GetKeyRange::GetKeyRange
abbrev pub new_get_key_range : Fetching (List Bytes)
new_get_key_range =
    let x = typed get_key_range in
    record {
      exchange = with_range x (record x.cmd.range {
        start_key_inclusive = true;
        end_key_inclusive = true;
        max_returned = some 200;
      });
      out = [];
    }

-- GetKeyRange::ManageReply
unfoldable pub range_manage_reply : Fetching (List Bytes) → Command → Fetching (List Bytes)
range_manage_reply g rep = record {
  exchange = check_status g.exchange rep;
  out = if rep.succeeds then g.out ++ rep.range.keys else g.out;
}

abbrev ranged : Fetching (List Bytes) → KeyRange → Fetching (List Bytes)
ranged g r = record g { exchange = with_range g.exchange r }

abbrev pub range_of : Fetching (List Bytes) → KeyRange
range_of g = g.exchange.cmd.range

-- GetKeyRange::Start
abbrev pub set_start : Fetching (List Bytes) → Bytes → Fetching (List Bytes)
set_start g k = ranged g (record (range_of g) { start_key = some k })

-- GetKeyRange::End
abbrev pub set_end : Fetching (List Bytes) → Bytes → Fetching (List Bytes)
set_end g k = ranged g (record (range_of g) { end_key = some k })

-- GetKeyRange::IncludeStart
abbrev pub include_start : Fetching (List Bytes) → Bool → Fetching (List Bytes)
include_start g v = ranged g (record (range_of g) { start_key_inclusive = v })

-- GetKeyRange::IncludeEnd
abbrev pub include_end : Fetching (List Bytes) → Bool → Fetching (List Bytes)
include_end g v = ranged g (record (range_of g) { end_key_inclusive = v })

-- GetKeyRange::MaxItems, of a number that is not negative
abbrev pub max_items : Fetching (List Bytes) → ℕ → Fetching (List Bytes)
max_items g v = ranged g (record (range_of g) { max_returned = some v })

-- GetNext::GetNext
abbrev pub new_get_next : Fetching Bytes
new_get_next = record { exchange = hashed get_next; out = [] }

-- GetNext::ManageReply
abbrev pub next_manage_reply : Fetching Bytes → Command → Fetching Bytes
next_manage_reply g rep = record g { exchange = check_status g.exchange rep }

-- Put::Put
abbrev pub new_put : Exchange
new_put =
    let x = typed put in
    with_key_value x
      (record x.cmd.key_value { synchronization = write_back; sha1_algorithm = true; force = true })

-- `p != nullptr`, of the text that a pointer may have
abbrev not_null : Option Bytes → Bool
not_null none = false
not_null (some p) = true

-- `*p`; `none` where the null pointer is read.
abbrev first_char : Option Bytes → Option ℕ
first_char none = none
first_char (some []) = some 0
first_char (some (b ∷ p)) = some b

abbrev is_char : Option ℕ → Option Bool
is_char none = none
is_char (some b) = some (not (b == 0))

-- `(p != nullptr) || (*p != 0)`
abbrev pub empty : Option Bytes → Option Bool
empty p = if not_null p then some true else is_char (first_char p)

abbrev with_db_version : Exchange → Option Bytes → Option Bool → Option Exchange
with_db_version x p none = none
with_db_version x p (some e) =
    let x' = with_key_value x (record x.cmd.key_value { force = e }) in
    some (if e then x' else with_key_value x' (record x'.cmd.key_value { db_version = p }))

abbrev with_new_version : Exchange → Option Bytes → Option Bool → Option Exchange
with_new_version x p none = none
with_new_version x p (some e) =
    some (if e then x else with_key_value x (record x.cmd.key_value { new_version = p }))

-- Put::PreVersion; `none` where the null pointer is read.
unfoldable pub pre_version : Exchange → Option Bytes → Option Exchange
pre_version x p = with_db_version x p (empty p)

-- Put::PostVersion; `none` where the null pointer is read.
unfoldable pub post_version : Exchange → Option Bytes → Option Exchange
post_version x p = with_new_version x p (empty p)

-- Put::Sync
abbrev pub sync : Exchange → Bool → Exchange
sync x on =
    with_key_value x
      (record x.cmd.key_value { synchronization = if on then write_through else write_back })

module _ (c : Codec) where
  -- Put::rehash, of the bytes of the payload
  abbrev pub rehash : Exchange → Bytes → Exchange
  rehash x v = with_key_value x (record x.cmd.key_value { tag = some (c.sha1 v) })

  -- Put::Value, of all four kinds of arguments. A Slice is not copied: its bytes stay the caller's, who
  -- is taken to leave them alone until they are sent.
  abbrev pub set_value : Exchange → Bytes → Exchange
  set_value x v = rehash (record x { payload = some v }) v
