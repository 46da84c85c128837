-- ===== src/Net/Receiving.antt =====
-- Socket::read of src/utils/net.cpp.
use oio_sds_cpp.Prelude.{Bool, if◌then◌else◌, List, [], ◌∷◌, ◌++◌, Bytes, ◌≡◌, ◌≢◌, refl}
use oio_sds_cpp.Api.{SysError, eintr, eagain, etimedout}
use oio_sds_cpp.Net.{Poll, Verdict, again, stop}
use oio_sds_cpp.Net.Reading.{ReadEvent, got, closed, fails, stream}

-- What the call returns: a count of bytes, -2, or -1 with `errno`; `blocked` where it never does.
pub data Received : Type 0 where
  received : Bytes → Received
  ended blocked : Received
  failed : SysError → Received

-- The branch on `errno`; an error that the poll finds is returned with the errno of read(2).
unfoldable pub read_verdict : SysError → Bool → Poll → Verdict
read_verdict eintr late poll = again
read_verdict eagain late poll =
    if late
    then stop etimedout
    else if poll.error
    then stop eagain
    else if poll.event
    then again
    else stop etimedout
read_verdict e late poll = stop e

abbrev after_verdict :
    Verdict → List ReadEvent → Received × List ReadEvent → Received × List ReadEvent
after_verdict again es rest = rest
after_verdict (stop e) es rest = (failed e, es)

-- Socket::read, of a buffer that is not empty.
unfoldable pub read : List ReadEvent → Received × List ReadEvent
unfolding read_verdict
read [] = (blocked, [])
read (got [] ∷ es) = (ended, es)
read (got (b ∷ bs) ∷ es) = (received (b ∷ bs), es)
read (closed ∷ es) = (ended, es)
read (fails e late poll ∷ es) = after_verdict (read_verdict e late poll) es (read es)

-- The bytes that were received, with what is left of the stream.
abbrev pub bytes_of : Received → Bytes
bytes_of (received b) = b
bytes_of _ = []

after_verdict-stream :
    (v : Verdict) (es : List ReadEvent) (rest : Received × List ReadEvent)
    → bytes_of rest.0 ++ stream rest.1 ≡ stream es
    → bytes_of (after_verdict v es rest).0 ++ stream (after_verdict v es rest).1 ≡ stream es
after_verdict-stream again es rest h = h
after_verdict-stream (stop e) es rest h = refl

-- No byte of the stream is lost or moved by a read.
pub read-stream : (es : List ReadEvent) → bytes_of (read es).0 ++ stream (read es).1 ≡ stream es
unfolding read
read-stream [] = refl
read-stream (got [] ∷ es) = refl
read-stream (got (b ∷ bs) ∷ es) = refl
read-stream (closed ∷ es) = refl
read-stream (fails e late poll ∷ es) =
    after_verdict-stream (read_verdict e late poll) es (read es) (read-stream es)

after_verdict-received :
    (v : Verdict) (es : List ReadEvent) (rest : Received × List ReadEvent)
    → rest.0 ≢ received []
    → (after_verdict v es rest).0 ≢ received []
after_verdict-received again es rest h = h
after_verdict-received (stop e) es rest h = λ q. cc

-- A read never returns 0: the end of a stream is -2, and a count of bytes is above 0.
pub read-received : (es : List ReadEvent) → (read es).0 ≢ received []
unfolding read
read-received [] = λ q. cc
read-received (got [] ∷ es) = λ q. cc
read-received (got (b ∷ bs) ∷ es) = λ q. cc
read-received (closed ∷ es) = λ q. cc
read-received (fails e late poll ∷ es) =
    after_verdict-received (read_verdict e late poll) es (read es) (read-received es)
