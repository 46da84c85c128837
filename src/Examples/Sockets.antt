-- ===== src/Examples/Sockets.antt =====
-- Runs of the loops of src/utils/net.cpp, and of a frame that passes from one side to the other.
use oio_sds_cpp.Prelude.{◌≡◌, refl, List, [], ◌∷◌, ◌++◌, Bytes, arith, true, false, some, concat}
use oio_sds_cpp.Api.{eagain, eintr, etimedout, SysError}
use oio_sds_cpp.Net.{Poll, done, failed, verdict, again}
use oio_sds_cpp.Net.Reading.{ReadEvent, got, read_exactly, stream}
use oio_sds_cpp.Net.Reading
use oio_sds_cpp.Net.Sending.{WriteEvent, wrote, send, send_iov, advance}
use oio_sds_cpp.Net.Sending
use oio_sds_cpp.Net.Exactly.{read_exactly_total}
use oio_sds_cpp.Net.Gather.{send_iov-Wired, send_iov_total, Wired}
use oio_sds_cpp.Kinetic.Frame.{frame_iov, frame, frame_read, header}
use oio_sds_cpp.Kinetic.Framing.{frame_read-frame_iov, FrameConforms}

abbrev ready : Poll
ready = record { event = true; error = false }

abbrev silent : Poll
silent = record { event = false; error = false }

-- Five bytes in two reads, with an interruption and a wait in between.
abbrev reads : List ReadEvent
reads =
    got (1 ∷ 2 ∷ [])
    ∷ Reading.fails eintr false silent
    ∷ Reading.fails eagain false ready
    ∷ got (3 ∷ 4 ∷ 5 ∷ [])
    ∷ []

abbrev writes : List WriteEvent
writes = wrote 3 ∷ Sending.fails eagain false ready ∷ wrote 1 ∷ wrote 2 ∷ []

abbrev message : List Bytes
message = (1 ∷ 2 ∷ 3 ∷ []) ∷ [] ∷ (4 ∷ 5 ∷ 6 ∷ []) ∷ []

abbrev late : List ReadEvent
late = Reading.fails eintr false silent ∷ Reading.fails eagain false silent ∷ got (1 ∷ []) ∷ []

late_eagain : (read_exactly 1 late).outcome ≡ failed eagain
unfolding read_exactly
late_eagain = refl

wait_again : (t : SysError) → verdict t eagain false ready ≡ again
unfolding verdict
wait_again t = refl

interrupted_again : (t : SysError) → verdict t eintr false silent ≡ again
unfolding verdict
interrupted_again t = refl

read_exactly_total_example :
    ((read_exactly 5 reads).outcome ≡ done)
    × ((read_exactly 5 reads).received ≡ 1 ∷ 2 ∷ 3 ∷ 4 ∷ 5 ∷ [])
    × (stream (read_exactly 5 reads).left ≡ [])
read_exactly_total_example =
    read_exactly_total 5 reads (omega arith) (interrupted_again, (wait_again, tt)) (omega arith)

send_iov-Wired_example : Wired (concat message) (send_iov message writes)
send_iov-Wired_example = send_iov-Wired message writes (omega arith)

send_iov_total_example :
    ((send_iov message writes).outcome ≡ done)
    × ((send_iov message writes).wire ≡ 1 ∷ 2 ∷ 3 ∷ 4 ∷ 5 ∷ 6 ∷ [])
send_iov_total_example =
    send_iov_total message writes (omega arith) (wait_again etimedout, tt) (omega arith)

-- A frame with a message of two bytes and a value of one, in three reads.
abbrev frame_reads : List ReadEvent
frame_reads =
    got (70 ∷ 0 ∷ 0 ∷ 0 ∷ 2 ∷ 0 ∷ 0 ∷ 0 ∷ 1 ∷ [])
    ∷ got (8 ∷ 9 ∷ [])
    ∷ got (7 ∷ [])
    ∷ got (70 ∷ [])
    ∷ []

frame_stream : stream frame_reads ≡ concat (frame_iov (8 ∷ 9 ∷ []) (some (7 ∷ []))) ++ 70 ∷ []
unfolding frame_iov header
frame_stream = refl

frame_conforms : FrameConforms 2 1 frame_reads
unfolding read_exactly
frame_conforms = record { head = omega arith; body = omega arith; tail = omega arith }

frame_read-frame_iov_example :
    ((frame_read 1024 frame_reads).0 ≡ frame (record { msg = 8 ∷ 9 ∷ []; val = 7 ∷ [] }))
    × (stream (frame_read 1024 frame_reads).1 ≡ 70 ∷ [])
frame_read-frame_iov_example =
    frame_read-frame_iov 1024 (8 ∷ 9 ∷ []) (some (7 ∷ [])) (70 ∷ []) frame_reads (omega arith)
      (omega arith) (omega arith) frame_stream tt frame_conforms
