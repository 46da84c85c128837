-- ===== src/Examples/Commands.antt =====
-- Runs of the exchanges of src/oio/blob/kinetic/coro/RPC.cpp.
use oio_sds_cpp.Prelude.{◌≡◌, refl, List, [], ◌∷◌, some, none, bytes, arith}
use oio_sds_cpp.Net.Reading.{ReadEvent, got, stream, read_exactly}
use oio_sds_cpp.Net.Sending.{WriteEvent, wrote, send_iov}
use oio_sds_cpp.Kinetic.Frame.{frame_iov, exchange_write}
use oio_sds_cpp.Kinetic.Framing.{FrameConforms}
use oio_sds_cpp.Kinetic.Exchange.{
  Codec, Context, Exchange, stamped, signed_message, write, accepted, new_request, read,
  set_sequence,
}
use oio_sds_cpp.Kinetic.Commands.{new_put, set_key, set_value, pre_version, post_version}
use oio_sds_cpp.Kinetic.Wired.{arrived, read-write}

abbrev no_digest : Codec
no_digest = record {
  command_bytes = λ cmd. 7 ∷ [];
  parse_command = λ b. none;
  message_bytes = λ m. 8 ∷ 9 ∷ [];
  parse_message = λ b. none;
  sha1_hmac = λ salt b. salt;
  sha1 = λ b. b;
}

abbrev context : Context
context = record {
  cnx_id = 5;
  sequence_id = 1;
  cluster_version = 0;
  identity = 1;
  sha_salt = bytes "salt";
}

abbrev one_put : Exchange
one_put = set_sequence (set_value no_digest (set_key new_put (bytes "k")) (4 ∷ [])) 3

-- A codec that knows one message.
abbrev one_message : Codec
one_message = record no_digest {
  parse_command = λ b. some (stamped one_put context).cmd;
  parse_message = λ b. some (signed_message no_digest context (stamped one_put context).cmd);
}

abbrev put_writes : List WriteEvent
put_writes = wrote 5 ∷ wrote 7 ∷ []

abbrev put_reads : List ReadEvent
put_reads =
    got (70 ∷ 0 ∷ 0 ∷ 0 ∷ 2 ∷ 0 ∷ 0 ∷ 0 ∷ 1 ∷ [])
    ∷ got (8 ∷ 9 ∷ [])
    ∷ got (4 ∷ [])
    ∷ got (70 ∷ [])
    ∷ []

put_conforms : FrameConforms 2 1 put_reads
unfolding read_exactly
put_conforms = record { head = omega arith; body = omega arith; tail = omega arith }

read-write_example :
    ((read one_message 1024 (new_request one_message) put_reads).0
      ≡ arrived one_message one_put context)
    × ((read one_message 1024 (new_request one_message) put_reads).1 ≡ accepted)
    × (stream (read one_message 1024 (new_request one_message) put_reads).2 ≡ 70 ∷ [])
unfolding write frame_iov exchange_write send_iov oio_sds_cpp.Kinetic.Frame.header
    oio_sds_cpp.Net.Sending.advance
read-write_example =
    read-write one_message 1024 one_put context put_writes put_reads (70 ∷ [])
      (new_request one_message) (record { command = refl; message = refl }) (omega arith)
      (omega arith) (omega arith) (omega arith, (omega arith, tt)) refl refl tt put_conforms

-- A version that is given is not sent, and the put stays forced; the null pointer is read.
versions_dropped :
    (pre_version one_put (some (bytes "1")) ≡ some one_put)
    × (post_version one_put (some (bytes "2")) ≡ some one_put)
    × (pre_version one_put none ≡ none)
unfolding pre_version post_version
versions_dropped = (refl, refl, refl)
