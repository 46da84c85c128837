-- ===== src/Http/Stream.antt =====
-- The replies of src/utils/http.cpp read from the sockets of src/utils/net.cpp.
use oio_sds_cpp.Prelude.{
  ℕ, zero, suc, ◌≡◌, ◌≢◌, refl, ◌∙◌, ap, List, [], ◌∷◌, ◌++◌, Bytes, All, append_assoc,
}
use oio_sds_cpp.Net.Reading.{ReadEvent, stream}
use oio_sds_cpp.Net.Receiving.{
  Received, received, ended, blocked, failed, read, bytes_of, read-stream, read-received,
}
use oio_sds_cpp.Http.Parser.{Parser, Recv, gave, Context, stage_rank}
use oio_sds_cpp.Http.Parser as Parser

-- What Reply::consumeInput makes of the result of Socket::read: below 0 is an error.
abbrev pub recv_of : Received → List Recv
recv_of (received b) = gave b ∷ []
recv_of ended = Parser.failed ∷ []
recv_of (failed e) = Parser.failed ∷ []
recv_of blocked = []

-- The results of as many reads, as a reply consumes them, and the calls that are left.
unfoldable pub recvs : ℕ → List ReadEvent → List Recv × List ReadEvent
recvs zero es = ([], es)
recvs (suc n) es = let (r, es') = read es in let (rs, left) = recvs n es' in (recv_of r ++ rs, left)

abbrev pub given : List Recv → Bytes
given [] = []
given (gave b ∷ rs) = b ++ given rs
given (Parser.failed ∷ rs) = given rs

abbrev pub NotEmpty : Recv → Type 0
NotEmpty r = r ≢ gave []

given-recv_of : (r : Received) (rs : List Recv) → given (recv_of r ++ rs) ≡ bytes_of r ++ given rs
given-recv_of (received b) rs = refl
given-recv_of ended rs = refl
given-recv_of (failed e) rs = refl
given-recv_of blocked rs = refl

All-recv_of :
    (r : Received) (rs : List Recv)
    → r ≢ received []
    → All NotEmpty rs
    → All NotEmpty (recv_of r ++ rs)
All-recv_of (received []) rs h k = absurd (h refl)
All-recv_of (received (b ∷ bs)) rs h k = ((λ q. cc), k)
All-recv_of ended rs h k = ((λ q. cc), k)
All-recv_of (failed e) rs h k = ((λ q. cc), k)
All-recv_of blocked rs h k = k

-- A reply is given the bytes of the stream, all of them and in order, and none of its reads finds the
-- end of the stream: the branch of Reply::consumeInput that tells the parser of it is never taken.
pub recvs-stream :
    (n : ℕ) (es : List ReadEvent)
    → (given (recvs n es).0 ++ stream (recvs n es).1 ≡ stream es) × All NotEmpty (recvs n es).0
unfolding recvs
recvs-stream zero es = (refl, tt)
recvs-stream (suc n) es =
    let later = recvs-stream n (read es).1 in
    let rs = (recvs n (read es).1).0 in
    let left = stream (recvs n (read es).1).1 in
    (
      ap (λ l. l ++ left) (given-recv_of (read es).0 rs)
          ∙ append_assoc (bytes_of (read es).0) (given rs) left
          ∙ ap (λ l. bytes_of (read es).0 ++ l) later.0
          ∙ read-stream es,
      All-recv_of (read es).0 rs (read-received es) later.1,
    )
