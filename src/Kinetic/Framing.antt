-- ===== src/Kinetic/Framing.antt =====
-- Frames written by Exchange::Write and read by Frame::Read (src/oio/blob/kinetic/coro/RPC.cpp).
use oio_sds_cpp.Prelude.{
  ℕ, zero, suc, ◌/◌, ◌%◌, ◌≤◌, ◌<◌, ltb, ◌||◌, if◌then◌else◌, ◌≡◌, refl, sym, ◌∙◌, ap, true, List,
  [], ◌∷◌, ◌++◌, Bytes, length, Option, some, none, u32_mod, arith, append_assoc, append-nil,
  concat, split_at, eq_nil_of_length, length-append,
}
use oio_sds_cpp.Api.{e2big, eagain}
use oio_sds_cpp.Net.{done, Poll}
use oio_sds_cpp.Net.Reading.{
  ReadEvent, Read, read_exactly, got, fails, stream, ReadsOn, ReadConforms, read_loop,
}
use oio_sds_cpp.Net.Exactly.{read_exactly_total, read_exactly-ReadsOn}
use oio_sds_cpp.Kinetic.Frame.{
  from_be32, header, frame_iov, FrameResult, frame, refused, continue, read_part, read_body,
  read_header, frame_read,
}

abbrev pub payload_bytes : Option Bytes → Bytes
payload_bytes none = []
payload_bytes (some val) = val

from_be32_lem :
    (n : ℕ)
    → n < u32_mod
    → from_be32
        (n % u32_mod / 16777216 % 256)
        (n % u32_mod / 65536 % 256)
        (n % u32_mod / 256 % 256)
        (n % u32_mod % 256)
      ≡ n
unfolding from_be32
from_be32_lem n h = omega arith

frame_bytes :
    (msg : Bytes) (payload : Option Bytes)
    → concat (frame_iov msg payload)
      ≡ header (length msg) (length (payload_bytes payload)) ++ msg ++ payload_bytes payload
unfolding frame_iov
frame_bytes msg none = sym (append_assoc _ msg [])
frame_bytes msg (some val) = rw (append-nil val) (sym (append_assoc _ msg val))

length-header : (lenmsg lenval : ℕ) → length (header lenmsg lenval) ≡ 9
unfolding header
length-header lenmsg lenval = refl

-- The checks on a header that was written for these two sizes.
pub read_header_lem :
    (limit lenmsg lenval : ℕ) (es : List ReadEvent)
    → lenmsg < u32_mod
    → lenval < u32_mod
    → read_header limit (header lenmsg lenval) es ≡ (
        if ltb limit lenval || ltb limit lenmsg
        then (refused e2big, es)
        else read_body lenmsg lenval es)
unfolding read_header header
read_header_lem limit lenmsg lenval es m v = rw (from_be32_lem lenmsg m, from_be32_lem lenval v)

abbrev pub after : ℕ → List ReadEvent → List ReadEvent
after len es = (read_exactly len es).left

continue_done :
    (r : Read) (b : Bytes) (k : Bytes → List ReadEvent → FrameResult × List ReadEvent)
    → r.outcome ≡ done
    → r.received ≡ b
    → continue r k ≡ k b r.left
continue_done r b k o e = rw (o, e)

read_part_lem :
    (b more : Bytes) (n : ℕ) (es : List ReadEvent)
    (k : Bytes → List ReadEvent → FrameResult × List ReadEvent)
    → length b ≡ n
    → ReadConforms n es
    → ReadsOn es
    → stream es ≡ b ++ more
    → (read_part n es k ≡ k b (after n es)) × (stream (after n es) ≡ more)
unfolding read_part
read_part_lem b more zero es k h c r e =
    let nothing : b ≡ [] = eq_nil_of_length b h in
    unfold read_exactly read_loop in (rw nothing, e ∙ ap (λ x. x ++ more) nothing)
read_part_lem b more (suc n) es k h c r e =
    let (d, x, y) =
      read_exactly_total (suc n) es c r (omega (arith, ap length e, length-append b more)) in
    let (p, q) = split_at b more (stream es) (suc n) h (sym e) in
    (continue_done (read_exactly (suc n) es) b k d (x ∙ sym p), y ∙ sym q)

framed : Bytes → Bytes → List ReadEvent → FrameResult × List ReadEvent
framed msg val es = (frame (record { msg = msg; val = val }), es)

read_value : ℕ → Bytes → List ReadEvent → FrameResult × List ReadEvent
unfolding framed
read_value lenval msg es = read_part lenval es (framed msg)

read_body_lem :
    (lenmsg lenval : ℕ) (es : List ReadEvent)
    → read_body lenmsg lenval es ≡ read_part lenmsg es (read_value lenval)
unfolding read_body read_value
read_body_lem lenmsg lenval es = refl

frame_read_lem :
    (limit : ℕ) (es : List ReadEvent) → frame_read limit es ≡ read_part 9 es (read_header limit)
unfolding frame_read read_part
frame_read_lem limit es = refl

header_accepted :
    (limit lenmsg lenval : ℕ) (es : List ReadEvent)
    → limit < u32_mod
    → lenmsg ≤ limit
    → lenval ≤ limit
    → read_header limit (header lenmsg lenval) es ≡ read_body lenmsg lenval es
header_accepted limit lenmsg lenval es l m v =
    ground (arith, read_header_lem limit lenmsg lenval es)

frame_stream :
    (msg : Bytes) (payload : Option Bytes) (more : Bytes)
    → concat (frame_iov msg payload) ++ more
      ≡ header (length msg) (length (payload_bytes payload))
        ++ (msg ++ (payload_bytes payload ++ more))
frame_stream msg payload more = simp (frame_bytes, append_assoc)

header_then :
    (limit lenmsg lenval : ℕ) (es : List ReadEvent)
    → read_part 9 (got (header lenmsg lenval) ∷ es) (read_header limit)
      ≡ read_header limit (header lenmsg lenval) es
unfolding read_part read_exactly read_loop header
header_then limit lenmsg lenval es = refl

late_body :
    (n : ℕ) (k : Bytes → List ReadEvent → FrameResult × List ReadEvent) (poll : Poll)
    (es : List ReadEvent)
    → read_part (suc n) (fails eagain true poll ∷ es) k ≡ (refused eagain, es)
unfolding read_part read_exactly read_loop
late_body n k poll es = ground arith

-- The kernel stores what the three reads of a frame ask for.
pub record FrameConforms (lenmsg lenval : ℕ) (es : List ReadEvent) : Type 0 where
  pub head : ReadConforms 9 es
  pub body : ReadConforms lenmsg (after 9 es)
  pub tail : ReadConforms lenval (after lenmsg (after 9 es))

-- A frame within the limit that was written on one side is read on the other, message and value, and
-- the stream stands at the first byte behind it.
pub frame_read-frame_iov :
    (limit : ℕ) (msg : Bytes) (payload : Option Bytes) (more : Bytes) (es : List ReadEvent)
    → limit < u32_mod
    → length msg ≤ limit
    → length (payload_bytes payload) ≤ limit
    → stream es ≡ concat (frame_iov msg payload) ++ more
    → ReadsOn es
    → FrameConforms (length msg) (length (payload_bytes payload)) es
    → ((frame_read limit es).0 ≡ frame (record { msg = msg; val = payload_bytes payload }))
      × (stream (frame_read limit es).1 ≡ more)
unfolding read_value read_part framed
frame_read-frame_iov limit msg payload more es l m v e r c =
    let val = payload_bytes payload in
    let es' : List ReadEvent = after 9 es in
    let es'' : List ReadEvent = after (length msg) es' in
    let (p, q) =
      read_part_lem (header (length msg) (length val)) (msg ++ (val ++ more)) 9 es
        (read_header limit) (length-header (length msg) (length val)) c.head r
        (e ∙ frame_stream msg payload more) in
    let r' = read_exactly-ReadsOn 9 es r in
    let (p', q') =
      read_part_lem msg (val ++ more) (length msg) es' (read_value (length val)) refl c.body r' q in
    let (p'', q'') =
      read_part_lem val more (length val) es'' (framed msg) refl c.tail
        (read_exactly-ReadsOn (length msg) es' r') q' in
    let whole =
      frame_read_lem limit es
      ∙ p
      ∙ header_accepted limit (length msg) (length val) es' l m v
      ∙ read_body_lem (length msg) (length val) es'
      ∙ p'
      ∙ p'' in
    (ap (λ t. t.0) whole, ap (λ t. stream t.1) whole ∙ q'')

-- A timeout between the header and the message is reported as EAGAIN although the nine bytes of the
-- header are gone from the stream: the next read starts inside the frame.
pub frame_read_eagain_drops_header :
    (limit lenmsg lenval : ℕ) (poll : Poll) (es : List ReadEvent)
    → limit < u32_mod
    → 0 < lenmsg
    → lenmsg ≤ limit
    → lenval ≤ limit
    → frame_read limit (got (header lenmsg lenval) ∷ fails eagain true poll ∷ es)
      ≡ (refused eagain, es)
frame_read_eagain_drops_header limit zero lenval poll es l z m v = absurd (omega arith)
frame_read_eagain_drops_header limit (suc n) lenval poll es l z m v =
    frame_read_lem limit _
    ∙ header_then limit (suc n) lenval (fails eagain true poll ∷ es)
    ∙ header_accepted limit (suc n) lenval (fails eagain true poll ∷ es) l m v
    ∙ read_body_lem (suc n) lenval (fails eagain true poll ∷ es)
    ∙ late_body n (read_value lenval) poll es
