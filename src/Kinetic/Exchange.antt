-- ===== src/Kinetic/Exchange.antt =====
-- Exchange and Request of src/oio/blob/kinetic/coro/RPC.cpp: the fields of the messages that the program
-- sets or reads. Their encoding is protobuf's, and the digests are OpenSSL's: parameters.
use oio_sds_cpp.Prelude.{ℕ, Bool, true, false, List, [], Option, some, none, Bytes}
use oio_sds_cpp.Api.{SysError, einval}
use oio_sds_cpp.Net.Reading.{ReadEvent}
use oio_sds_cpp.Net.Sending.{WriteEvent, Sent}
use oio_sds_cpp.Kinetic.Frame.{
  Frame, FrameResult, frame, refused, waiting, frame_read, exchange_write,
}

pub data MessageType : Type 0 where
  unset_type put get delete get_key_range get_next : MessageType

pub data Synchronization : Type 0 where
  unset_synchronization write_back write_through : Synchronization

-- A field that is not set is `none`.
pub record Header : Type 0 where
  pub message_type : MessageType
  pub normal_priority : Bool
  pub cluster_version : Option ℕ
  pub connection_id : Option ℕ
  pub sequence : Option ℕ
  pub timeout : Option ℕ

pub record KeyValue : Type 0 where
  pub key : Option Bytes
  pub db_version : Option Bytes
  pub new_version : Option Bytes
  pub tag : Option Bytes
  pub sha1_algorithm : Bool
  pub force : Bool
  pub synchronization : Synchronization

pub record KeyRange : Type 0 where
  pub start_key : Option Bytes
  pub end_key : Option Bytes
  pub start_key_inclusive : Bool
  pub end_key_inclusive : Bool
  pub max_returned : Option ℕ
  pub keys : List Bytes

pub record Command : Type 0 where
  pub header : Header
  pub key_value : KeyValue
  pub range : KeyRange
  pub succeeds : Bool  -- status().code() == SUCCESS

abbrev pub empty_header : Header
empty_header = record {
  message_type = unset_type;
  normal_priority = false;
  cluster_version = none;
  connection_id = none;
  sequence = none;
  timeout = none;
}

abbrev pub empty_key_value : KeyValue
empty_key_value = record {
  key = none;
  db_version = none;
  new_version = none;
  tag = none;
  sha1_algorithm = false;
  force = false;
  synchronization = unset_synchronization;
}

abbrev pub empty_range : KeyRange
empty_range = record {
  start_key = none;
  end_key = none;
  start_key_inclusive = false;
  end_key_inclusive = false;
  max_returned = none;
  keys = [];
}

abbrev pub empty_command : Command
empty_command = record {
  header = empty_header;
  key_value = empty_key_value;
  range = empty_range;
  succeeds = false;
}

pub record Message : Type 0 where
  pub command_bytes : Option Bytes
  pub hmac_auth : Bool
  pub identity : Option ℕ
  pub hmac : Option Bytes

abbrev pub empty_message : Message
empty_message = record { command_bytes = none; hmac_auth = false; identity = none; hmac = none }

-- The messages as bytes, and the digests of src/utils/utils.hpp.
pub record Codec : Type 0 where
  pub command_bytes : Command → Bytes  -- SerializeAsString
  pub parse_command : Bytes → Option Command  -- ParseFromArray
  pub message_bytes : Message → Bytes  -- SerializeToArray
  pub parse_message : Bytes → Option Message  -- ParseFromArray
  pub sha1_hmac : Bytes → Bytes → Bytes
  pub sha1 : Bytes → Bytes

pub record Context : Type 0 where
  pub cnx_id : ℕ
  pub sequence_id : ℕ
  pub cluster_version : ℕ
  pub identity : ℕ
  pub sha_salt : Bytes

-- Exchange; a payload without a buffer is `none`.
pub record Exchange : Type 0 where
  pub cmd : Command
  pub payload : Option Bytes
  pub status : Bool

-- Exchange::Exchange
abbrev pub new_exchange : Exchange
new_exchange = record { cmd = empty_command; payload = none; status = false }

abbrev with_header : Exchange → Header → Exchange
with_header x h = record x { cmd = record x.cmd { header = h } }

-- Exchange::SetSequence
abbrev pub set_sequence : Exchange → ℕ → Exchange
set_sequence x s = with_header x (record x.cmd.header { sequence = some s })

-- The fields that Exchange::Write sets of the command.
abbrev pub stamped : Exchange → Context → Exchange
stamped x ctx = with_header x (record x.cmd.header {
  normal_priority = true;
  cluster_version = some ctx.cluster_version;
  connection_id = some ctx.cnx_id;
  timeout = some 1000;
})

-- What Request::Read returns: 0, an errno, or nothing while the peer is awaited.
pub data ReadResult : Type 0 where
  accepted awaited : ReadResult
  failed : SysError → ReadResult

module _ (c : Codec) where
  -- The message of Exchange::Write.
  abbrev pub signed_message : Context → Command → Message
  signed_message ctx cmd =
      let b = c.command_bytes cmd in
      record {
        command_bytes = some b;
        hmac_auth = true;
        identity = some ctx.identity;
        hmac = some (c.sha1_hmac ctx.sha_salt b);
      }

  -- Exchange::Write: the exchange, whose command is changed, and what is sent.
  unfoldable pub write : Exchange → Context → List WriteEvent → Exchange × Sent
  write x ctx es =
      let x' = stamped x ctx in
      (x', exchange_write (c.message_bytes (signed_message ctx x'.cmd)) x.payload es)

  pub record Request : Type 0 where
    pub cmd : Command
    pub msg : Message
    pub value : Bytes

  -- Request::Request
  abbrev pub new_request : Request
  new_request = record { cmd = empty_command; msg = empty_message; value = [] }

  -- What protobuf leaves of a message that it cannot parse is not modelled: it stays as it was.
  abbrev pub with_command : Request → Frame → Option Command → Request × Bool
  with_command r f none = (r, false)
  with_command r f (some cmd) = (record r { cmd = cmd; value = f.val }, true)

  abbrev pub with_bytes : Request → Frame → Option Bytes → Request × Bool
  with_bytes r f none = (r, true)
  with_bytes r f (some b) = with_command r f (c.parse_command b)

  abbrev pub with_message : Request → Frame → Option Message → Request × Bool
  with_message r f none = (r, false)
  with_message r f (some m) = with_bytes (record r { msg = m }) f m.command_bytes

  -- Request::Parse
  unfoldable pub parse : Request → Frame → Request × Bool
  parse r f = with_message (record r { value = [] }) f (c.parse_message f.msg)

  abbrev pub parsed : Request × Bool → Request × ReadResult
  parsed (r, true) = (r, accepted)
  parsed (r, false) = (r, failed einval)

  abbrev pub framed_request : Request → FrameResult → Request × ReadResult
  framed_request r (frame f) = parsed (parse r f)
  framed_request r (refused e) = (r, failed e)
  framed_request r waiting = (r, awaited)

  -- Request::Read, at the limit of a frame.
  unfoldable pub read : ℕ → Request → List ReadEvent → Request × ReadResult × List ReadEvent
  unfolding parse
  read limit r es =
      let (f, left) = frame_read limit es in let (r', rc) = framed_request r f in (r', rc, left)
