-- ===== src/Examples/Addresses.antt =====
-- Runs of the sockets of src/utils/net.cpp and of their addresses.
use oio_sds_cpp.Prelude.{
  ℕ, ◌==◌, ◌≡◌, ◌≢◌, refl, Bool, true, false, List, [], ◌∷◌, ◌++◌, Option, some, none, Bytes, bytes,
  All, arith, if◌then◌else◌,
}
use oio_sds_cpp.Prelude.Decimal.{decimal}
use oio_sds_cpp.Api.{no_error, einval, eagain}
use oio_sds_cpp.Net.{Poll}
use oio_sds_cpp.Net.Reading.{ReadEvent, got, closed, fails, stream}
use oio_sds_cpp.Http.Parser.{Recv, gave}
use oio_sds_cpp.Http.Parser as Parser
use oio_sds_cpp.Http.Stream.{recvs, given, NotEmpty, recvs-stream}
use oio_sds_cpp.Net.Address.{Inet, Host, ipv6, reset, parse, port_parse}
use oio_sds_cpp.Net.Address.Urls.{LawfulInet, parse-host_url}
use oio_sds_cpp.Net.Socket.{Socket, Answers, reconnect, reconnect-peer}

abbrev waits : Poll
waits = record { error = false; event = true }

abbrev reply : List ReadEvent
reply = got (bytes "HT") ∷ fails eagain false waits ∷ got (bytes "TP") ∷ closed ∷ []

recvs-stream_example :
    (given (recvs 3 reply).0 ++ stream (recvs 3 reply).1 ≡ stream reply)
    × All NotEmpty (recvs 3 reply).0
recvs-stream_example = recvs-stream 3 reply

-- The end of the stream comes to a reply as an error.
end_is_error : (recvs 3 reply).0 ≡ gave (bytes "HT") ∷ gave (bytes "TP") ∷ Parser.failed ∷ []
unfolding recvs oio_sds_cpp.Net.Receiving.read
end_is_error = refl

-- Two addresses of either family: their texts, and no other, are read.
abbrev text4 : Bool → Bytes
text4 true = bytes "127.0.0.1"
text4 false = bytes "10.0.0.2"

abbrev text6 : Bool → Bytes
text6 true = bytes "::1"
text6 false = bytes "fe80::2"

abbrev read4 : Bytes → Option Bool
read4 [] = none
read4 (a ∷ []) = none
read4 (a ∷ b ∷ s) = if b == b'2' then some true else if b == b'0' then some false else none

abbrev read6 : Bytes → Option Bool
read6 [] = none
read6 (a ∷ s) = if a == b':' then some true else if a == b'f' then some false else none

abbrev two_hosts : Inet
two_hosts = record {
  Ip4 = Bool;
  Ip6 = Bool;
  pton4 = read4;
  pton6 = read6;
  ntop4 = text4;
  ntop6 = text6;
}

text4_ok : (ip : Bool) → All (λ c. c ≢ 0) (text4 ip)
text4_ok true = ground arith
text4_ok false = ground arith

text6_ok : (ip : Bool) → All (λ c. c ≢ 0) (text6 ip)
text6_ok true = ground arith
text6_ok false = ground arith

read4_text4 : (ip : Bool) → read4 (text4 ip) ≡ some ip
read4_text4 true = refl
read4_text4 false = refl

read6_text6 : (ip : Bool) → read6 (text6 ip) ≡ some ip
read6_text6 true = refl
read6_text6 false = refl

text4_starts : (ip : Bool) → (c : ℕ) × (s : Bytes) × (text4 ip ≡ c ∷ s) × (c ≢ b'[')
text4_starts true = (b'1', bytes "27.0.0.1", refl, λ e. absurd (omega arith))
text4_starts false = (b'1', bytes "0.0.0.2", refl, λ e. absurd (omega arith))

two_hosts-LawfulInet : LawfulInet two_hosts
two_hosts-LawfulInet = record {
  read4 = read4_text4;
  read6 = read6_text6;
  text4 = text4_ok;
  text6 = text6_ok;
  starts4 = text4_starts;
}

abbrev rawx_host : Host two_hosts
rawx_host = ipv6 true 6004

parse-host_url_example :
    parse two_hosts einval (reset two_hosts) (bytes "[::1]:6004")
    ≡ (record { host = rawx_host; len = 28 }, true)
unfolding decimal
parse-host_url_example =
    parse-host_url two_hosts two_hosts-LawfulInet einval (reset two_hosts) rawx_host
      (omega arith, refl)

-- The port 0 is read or not by what an earlier call has left in errno; no digits are the port 0.
port_of_errno :
    (port_parse einval (bytes "0") ≡ none)
    × (port_parse no_error (bytes "0") ≡ some 0)
    × (port_parse no_error [] ≡ some 0)
unfolding port_parse
port_of_errno = (refl, refl, refl)

abbrev lost_socket : Socket two_hosts
lost_socket = record {
  fd = some 3;
  peer = record { host = rawx_host; len = 28 };
  local = reset two_hosts;
}

abbrev in_progress : Answers two_hosts
in_progress = record {
  errno = eagain;
  descriptor = some 7;
  connecting = true;
  named = some (record { host = rawx_host; len = 28 });
}

reconnect-peer_example :
    (s' : Socket two_hosts) × (good : Bool) × (reconnect two_hosts lost_socket in_progress
      ≡ some (s', good))
    × (s'.fd ≡ some 7)
    × (s'.peer.host ≡ rawx_host)
    × (good ≡ true)
reconnect-peer_example =
    reconnect-peer two_hosts two_hosts-LawfulInet lost_socket in_progress 7 (omega arith, refl) refl
