-- ===== src/Examples/Requests.antt =====
-- Runs of the HTTP client of src/utils/http.cpp and of the transactions of src/oio/blob/http/blob.cpp.
use oio_sds_cpp.Prelude.{
  ℕ, bytes_eq, ◌≤◌, ◌≡◌, refl, true, List, [], ◌∷◌, ◌++◌, some, Bytes, bytes, concat, pos,
  append-nil,
}
use oio_sds_cpp.Api.{init, SysError, enoent}
use oio_sds_cpp.Api.Transaction as Transaction
use oio_sds_cpp.Prelude.Decimal.{decimal}
use oio_sds_cpp.Prelude.Map.{insert, find}
use oio_sds_cpp.Prelude.Hexadecimal.{hexadecimal}
use oio_sds_cpp.Http.Channel.{Channel, Lawful}
use oio_sds_cpp.Http.Request.{
  write_headers, headers, Code, ok, Request, new_request, finish_request, trailer_lines, write,
  add_trailer, set_field,
}
use oio_sds_cpp.Http.Chunks.{decode}
use oio_sds_cpp.Http.Body.{write_all, decode-write_all}
use oio_sds_cpp.Http.Parser.{Parser, new_context, failed}
use oio_sds_cpp.Http.Call.{Call, send_request, run, run_lost_reply}
use oio_sds_cpp.Http.Exchange.{Exchange}
use oio_sds_cpp.Http.Download.{HttpDownload}
use oio_sds_cpp.Http.Outcomes.{upload_ends_once, upload_transaction, writes, UploadCall}

-- A socket that takes everything.
abbrev plain : Channel
plain = record { State = Bytes; wire = λ w. w; send = λ w iov. (w ++ concat iov, true) }

plain-Lawful : Lawful plain
plain-Lawful = record { all = λ s iov t. refl; part = λ s iov. ([], append-nil (s ++ concat iov)) }

abbrev parts : List Bytes
parts = bytes "ab" ∷ [] ∷ bytes "c" ∷ []

abbrev with_trailer : Request
with_trailer = set_field (add_trailer new_request (bytes "k")) (bytes "k") (bytes "v")

abbrev written : Request × Bytes
written = (
  record with_trailer { sent = 3 },
  bytes "2"
      ++ (13 ∷ 10 ∷ [])
      ++ bytes "ab"
      ++ (13 ∷ 10 ∷ [])
      ++ bytes "1"
      ++ (13 ∷ 10 ∷ [])
      ++ bytes "c"
      ++ (13 ∷ 10 ∷ []),
)

parts-write_all : write_all plain with_trailer [] parts ≡ some written
unfolding write_all write hexadecimal
parts-write_all = refl

abbrev lines : Bytes
lines = bytes "0" ++ (13 ∷ 10 ∷ 13 ∷ 10 ∷ []) ++ bytes "k: v" ++ (13 ∷ 10 ∷ [])

written-finish : finish_request plain written.0 written.1 ≡ (written.1 ++ lines, ok)
unfolding finish_request insert find bytes_eq
written-finish = refl

decode-write_all_example :
    (body : Bytes) × (written.1 ++ lines ≡ body)
    × (decode 4 (body ++ bytes "HTTP")
        ≡ some (
          bytes "abc",
          concat (trailer_lines with_trailer.fields with_trailer.trailers) ++ bytes "HTTP",
        ))
decode-write_all_example =
    decode-write_all plain plain-Lawful with_trailer written.0 [] written.1 (written.1 ++ lines)
      parts (bytes "HTTP") tt parts-write_all written-finish

abbrev announced : Request
announced = record new_request { content_length = pos 4 }

announced-write_all :
    write_all plain announced (bytes "x") parts ≡ some (record announced { sent = 3 }, bytes "xabc")
unfolding write_all write
announced-write_all = refl

-- A parser that is never reached.
abbrev no_parser : Parser
no_parser = record {
  State = Unit {0};
  start = tt;
  resume = λ s. s;
  execute = λ s b. (s, 0, []);
  status_code = λ s. 0;
}

abbrev call : Call plain no_parser
call = record {
  request = new_request;
  channel = [];
  reply = new_context no_parser;
  reads = failed ∷ [];
}

abbrev sent_call : Call plain no_parser × Code
sent_call = (
  record {
    request = record new_request { content_length = pos 0 };
    channel =
        bytes "GET / HTTP/1.1"
        ++ (13 ∷ 10 ∷ [])
        ++ bytes "Content-Length: 0"
        ++ (13 ∷ 10 ∷ 13 ∷ 10 ∷ []);
    reply = new_context no_parser;
    reads = failed ∷ [];
  },
  ok,
)

call-send_request : send_request plain no_parser call [] ≡ sent_call
unfolding send_request write finish_request write_headers headers decimal
call-send_request = refl

run_lost_reply_example :
    run plain no_parser 2 call [] (bytes "old") ≡ some (record sent_call.0 { reads = [] }, [], ok)
run_lost_reply_example =
    run_lost_reply plain no_parser 1 call sent_call.0 [] (bytes "old") [] call-send_request refl
      refl refl refl

-- A server that answers everything with one status.
abbrev answers : ℕ → Exchange
answers code = record {
  State = ℕ;
  connected = λ s. true;
  reconnect = λ s. (s, true);
  last_error = λ s. enoent;
  close = λ s. s;
  set_field = λ s k v. s;
  write_headers = λ s. (s, ok);
  write = λ s b. (s, ok);
  finish_request = λ s. (s, ok);
  read_headers = λ s. (s, ok);
  append_body = λ s b. (s, b, Code.done);
  skip = λ s. s;
  status_code = λ s. code;
  finished = λ s. true;
}

abbrev upload_calls : List (Transaction.Request UploadCall)
upload_calls =
    Transaction.prepares
    ∷ Transaction.others (writes (bytes "a"))
    ∷ Transaction.commits
    ∷ Transaction.aborts
    ∷ Transaction.commits
    ∷ []

upload_ends_once_example :
    Transaction.ends
      (upload_transaction (answers 201) 1)
      upload_calls
      (record { io = 0; step = init })
    ≤ 1
upload_ends_once_example = upload_ends_once (answers 201) 1 upload_calls 0

abbrev no_message : SysError → Bytes
no_message e = []

abbrev removal_calls : List (Transaction.Request ⊥)
removal_calls =
    Transaction.prepares ∷ Transaction.commits ∷ Transaction.commits ∷ Transaction.aborts ∷ []

abbrev new_download : HttpDownload (answers 500) no_message
new_download = record { io = 0; step = init }
