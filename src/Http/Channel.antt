-- ===== src/Http/Channel.antt =====
-- The socket as src/utils/http.cpp uses it for writing: Socket::send of an array of buffers. A client of
-- it relies on the laws of `Lawful` alone.
use oio_sds_cpp.Prelude.{Bool, true, List, ◌++◌, Bytes, concat, ◌≡◌}

pub record Channel : Type 1 where
  pub State : Type 0
  pub wire : State → Bytes  -- all that was handed to the kernel
  pub send : State → List Bytes → State × Bool

pub record Lawful (ch : Channel) : Type 0 where
  -- A send that succeeds has put all the buffers on the wire, in order.
  pub all :
      (s : ch.State) (iov : List Bytes)
      → (ch.send s iov).1 ≡ true
      → ch.wire (ch.send s iov).0 ≡ ch.wire s ++ concat iov
  -- Any send puts a first part of them.
  pub part :
      (s : ch.State) (iov : List Bytes)
      → (rest : Bytes) × (ch.wire (ch.send s iov).0 ++ rest ≡ ch.wire s ++ concat iov)
