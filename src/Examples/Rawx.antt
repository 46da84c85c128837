-- ===== src/Examples/Rawx.antt =====
-- Runs of src/oio/blob/rawx, and of its downloads over HTTP.
use oio_sds_cpp.Prelude.{
  ℕ, ◌≤◌, ◌≡◌, refl, Bool, true, false, List, [], ◌∷◌, ◌++◌, some, none, Bytes, bytes, ℤ, pos,
  arith, to_int32,
}
use oio_sds_cpp.Api.{success, init, prepared, SysError, enoent}
use oio_sds_cpp.Api.Transaction as Transaction
use oio_sds_cpp.Http.Request.{ok, network_error}
use oio_sds_cpp.Http.Exchange.{Exchange}
use oio_sds_cpp.Http.Download.{HttpDownload}
use oio_sds_cpp.Http.Download as HttpDownloads
use oio_sds_cpp.Rawx.Url.{RawxUrl, empty_url, parse, get_string}
use oio_sds_cpp.Rawx.RoundTrip.{parse-get_string}
use oio_sds_cpp.Rawx.Wrapper.{rawx_transaction}
use oio_sds_cpp.Rawx.Ends.{rawx_ends_once}
use oio_sds_cpp.Rawx.Download.{Source, RawxDownload, spins, returns, read}
use oio_sds_cpp.Rawx.Reading.{Delivers, ended, piece, Stuck, read-Delivers, read-Stuck}

abbrev chunk_url : RawxUrl
chunk_url = record { chunk_id = bytes "ABCD"; host = bytes "127.0.0.1"; port = pos 6004 }

parse-get_string_example : parse empty_url (get_string chunk_url) ≡ some chunk_url
parse-get_string_example =
    parse-get_string empty_url chunk_url 6004 refl (omega arith) (omega arith) (ground arith)
      (omega arith)

-- The last digit of a longer port goes to the name of the chunk.
long_port :
    parse empty_url (bytes "http://h:60041/ID")
    ≡ some (record { chunk_id = bytes "/ID"; host = bytes "h"; port = pos 6004 })
unfolding parse
long_port = refl

short_port : parse empty_url (bytes "http://h:80/") ≡ none
unfolding parse
short_port = refl

-- An inner transaction that accepts everything.
abbrev lax : Transaction.Transaction
lax = record {
  State = ℕ;
  Other = ℕ;
  step = λ s. prepared;
  prepare = λ s. some (s, success);
  commit = λ s. some (s, success);
  abort = λ s. some (s, success);
  other = λ s o. o;
}

abbrev calls : List (Transaction.Request ℕ)
calls =
    Transaction.prepares
    ∷ Transaction.others 7
    ∷ Transaction.commits
    ∷ Transaction.commits
    ∷ Transaction.aborts
    ∷ []

rawx_ends_once_example :
    Transaction.ends (rawx_transaction lax) calls (record { inner = 0; step = init }) ≤ 1
rawx_ends_once_example = rawx_ends_once lax calls 0

-- A blob of two pieces: a state is the pieces to come.
abbrev take_piece : List Bytes → Bytes → List Bytes × Bytes × ℤ
take_piece [] buf = ([], buf, pos 0)
take_piece (p ∷ ps) buf = (ps, buf ++ p, pos 0)

abbrev no_pieces : List Bytes → Bool
no_pieces [] = true
no_pieces (p ∷ ps) = false

abbrev pieces : Source
pieces = record {
  State = List Bytes;
  prepare = λ s. (s, success);
  is_eof = no_pieces;
  read = take_piece;
}

abbrev two : List Bytes
two = bytes "abc" ∷ bytes "de" ∷ []

abbrev reading : RawxDownload pieces
reading = record {
  inner = two;
  command = record { url = chunk_url; range = record { start = 1; size = 3 }; chunk_size = 8 };
  step = prepared;
}

two-Delivers : Delivers pieces 2 two (bytes "abcde") []
two-Delivers = piece refl (λ buf. (pos 0, refl)) (piece refl (λ buf. (pos 0, refl)) (ended refl))

read-Delivers_example :
    read pieces 2 reading [] ≡ returns (record reading { inner = [] }, bytes "bcd", pos 3)
unfolding to_int32
read-Delivers_example =
    read-Delivers pieces 2 2 reading [] (bytes "abcde") [] refl (omega arith) two-Delivers

-- A connection that is lost in the middle of a reply.
abbrev lost : Exchange
lost = record {
  State = Unit {0};
  connected = λ s. true;
  reconnect = λ s. (s, true);
  last_error = λ s. enoent;
  close = λ s. s;
  set_field = λ s k v. s;
  write_headers = λ s. (s, ok);
  write = λ s b. (s, ok);
  finish_request = λ s. (s, ok);
  read_headers = λ s. (s, ok);
  append_body = λ s b. (s, b, network_error);
  skip = λ s. s;
  status_code = λ s. 200;
  finished = λ s. false;
}

abbrev no_message : SysError → Bytes
no_message e = []

abbrev over_http : Source
over_http = record {
  State = HttpDownload lost no_message;
  prepare = HttpDownloads.prepare lost no_message;
  is_eof = HttpDownloads.is_eof lost no_message;
  read = HttpDownloads.read lost no_message;
}

abbrev half_read : HttpDownload lost no_message
half_read = record { io = tt; step = prepared }

half_read-Stuck : Stuck over_http half_read
unfolding HttpDownloads.read
half_read-Stuck = record { goes_on = refl; same = λ buf. (_, refl) }

read-Stuck_example :
    read over_http 1000
      (record { inner = half_read; command = reading.command; step = prepared })
      []
    ≡ spins
read-Stuck_example =
    read-Stuck over_http 1000
      (record { inner = half_read; command = reading.command; step = prepared }) [] refl
      half_read-Stuck
