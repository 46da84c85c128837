-- ===== src/Kinetic/Frame.antt =====
-- The frames of src/oio/blob/kinetic/coro/RPC.cpp: Exchange::Write and Frame::Read. What protobuf makes
-- of a command is given as the bytes of the message.
use oio_sds_cpp.Prelude.{
  ℕ, zero, suc, ◌+◌, ◌*◌, ◌/◌, ◌%◌, ltb, ◌==◌, not, ◌||◌, if◌then◌else◌, List, [], ◌∷◌, ◌++◌, Bytes,
  length, Option, some, none, u32_mod,
}
use oio_sds_cpp.Api.{SysError, ebadmsg, e2big}
use oio_sds_cpp.Net.{done, blocked, aborted, failed}
use oio_sds_cpp.Net.Reading.{ReadEvent, Read, read_exactly}
use oio_sds_cpp.Net.Sending.{WriteEvent, Sent, send_iov}

-- htonl, as the four bytes that it stores
unfoldable pub be32 : ℕ → Bytes
be32 n = (n / 16777216 % 256) ∷ (n / 65536 % 256) ∷ (n / 256 % 256) ∷ (n % 256) ∷ []

-- ntohl of four bytes
unfoldable pub from_be32 : ℕ → ℕ → ℕ → ℕ → ℕ
from_be32 a b c d = a * 16777216 + b * 65536 + c * 256 + d

abbrev pub magic : ℕ
magic = b'F'

unfoldable pub header : ℕ → ℕ → Bytes
unfolding be32
header lenmsg lenval = magic ∷ be32 (lenmsg % u32_mod) ++ be32 (lenval % u32_mod)

-- The buffers of Exchange::Write; a null `payload_.buf` is `none`, and then `payload_.len` is 0.
unfoldable pub frame_iov : Bytes → Option Bytes → List Bytes
frame_iov msg none = header (length msg) 0 ∷ msg ∷ []
frame_iov msg (some val) = header (length msg) (length val) ∷ msg ∷ val ∷ []

-- Exchange::Write
unfoldable pub exchange_write : Bytes → Option Bytes → List WriteEvent → Sent
exchange_write msg payload es = send_iov (frame_iov msg payload) es

pub record Frame : Type 0 where
  pub msg : Bytes
  pub val : Bytes

pub data FrameResult : Type 0 where
  frame : Frame → FrameResult
  refused : SysError → FrameResult
  waiting : FrameResult

-- A failed `read_exactly` ends the read of the frame: `return errno`.
abbrev pub continue :
    Read → (Bytes → List ReadEvent → FrameResult × List ReadEvent) → FrameResult × List ReadEvent
continue r k = elim r.outcome [
  | done ↦ k r.received r.left
  | blocked ↦ (waiting, r.left)
  | aborted ↦ (waiting, r.left)
  | failed e ↦ (refused e, r.left)
]

-- `if (len > 0) { if (!chan->read_exactly(...)) return errno; }`
unfoldable pub read_part :
    ℕ
    → List ReadEvent
    → (Bytes → List ReadEvent → FrameResult × List ReadEvent)
    → FrameResult × List ReadEvent
read_part zero es k = k [] es
read_part (suc n) es k = continue (read_exactly (suc n) es) k

unfoldable pub read_body : ℕ → ℕ → List ReadEvent → FrameResult × List ReadEvent
read_body lenmsg lenval es =
    read_part lenmsg es
      λ msg es'. read_part lenval es' λ val es''. (frame (record { msg = msg; val = val }), es'')

-- The checks on the header, at the limit FLAGS_max_frame_size.
unfoldable pub read_header : ℕ → Bytes → List ReadEvent → FrameResult × List ReadEvent
read_header limit (m ∷ a ∷ b ∷ c ∷ d ∷ e ∷ f ∷ g ∷ h ∷ []) es =
    let lenmsg = from_be32 a b c d in
    let lenval = from_be32 e f g h in
    if not (m == magic)
    then (refused ebadmsg, es)
    else if ltb limit lenval || ltb limit lenmsg
    then (refused e2big, es)
    else read_body lenmsg lenval es
read_header limit _ es = (waiting, es)

-- Frame::Read
unfoldable pub frame_read : ℕ → List ReadEvent → FrameResult × List ReadEvent
frame_read limit es = continue (read_exactly 9 es) (read_header limit)
