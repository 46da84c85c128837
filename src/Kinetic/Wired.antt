-- ===== src/Kinetic/Wired.antt =====
-- A command of src/oio/blob/kinetic/coro/RPC.cpp on its way from Exchange::Write to Request::Read.
use oio_sds_cpp.Prelude.{
  ℕ, ◌≤◌, ◌<◌, ◌≡◌, refl, sym, ◌∙◌, ap, subst, List, [], ◌++◌, some, Bytes, length, concat,
  append-nil, u32_mod,
}
use oio_sds_cpp.Net.{done}
use oio_sds_cpp.Net.Reading.{ReadEvent, stream, ReadsOn}
use oio_sds_cpp.Net.Sending.{WriteEvent, WriteConforms}
use oio_sds_cpp.Net.Gather.{Unsent, send_iov-Wired}
use oio_sds_cpp.Kinetic.Frame.{frame, frame_iov, exchange_write}
use oio_sds_cpp.Kinetic.Framing.{payload_bytes, FrameConforms, frame_read-frame_iov}
use oio_sds_cpp.Kinetic.Exchange.{
  Codec, Context, Exchange, stamped, signed_message, write, Request, accepted, framed_request,
  parse, read,
}

module _ (c : Codec) where
  -- The bytes of the message of an exchange.
  abbrev pub encoded : Exchange → Context → Bytes
  encoded x ctx = c.message_bytes (signed_message c ctx (stamped x ctx).cmd)

  -- The request that the peer finds in it.
  abbrev pub arrived : Exchange → Context → Request c
  arrived x ctx = record {
    cmd = (stamped x ctx).cmd;
    msg = signed_message c ctx (stamped x ctx).cmd;
    value = payload_bytes x.payload;
  }

  -- protobuf parses what it has encoded of an exchange.
  pub record ParsesBack (x : Exchange) (ctx : Context) : Type 0 where
    pub command : c.parse_command (c.command_bytes (stamped x ctx).cmd) ≡ some (stamped x ctx).cmd
    pub message : c.parse_message (encoded x ctx) ≡ some (signed_message c ctx (stamped x ctx).cmd)

  parse_encoded :
      (r : Request c) (x : Exchange) (ctx : Context)
      → ParsesBack x ctx
      → framed_request c r (frame (record { msg = encoded x ctx; val = payload_bytes x.payload }))
        ≡ (arrived x ctx, accepted)
  unfolding parse
  parse_encoded r x ctx back = rw (back.message, back.command) refl

  -- The bytes on the wire are the frame, when the write is a success.
  write-wire :
      (x : Exchange) (ctx : Context) (ws : List WriteEvent)
      → WriteConforms (length (concat (frame_iov (encoded x ctx) x.payload))) ws
      → (write c x ctx ws).1.outcome ≡ done
      → (write c x ctx ws).1.wire ≡ concat (frame_iov (encoded x ctx) x.payload)
  unfolding write exchange_write
  write-wire x ctx ws k finished =
      let (rest, e, u) = send_iov-Wired (frame_iov (encoded x ctx) x.payload) ws k in
      let nothing : rest ≡ [] = subst (λ o. Unsent o rest) finished u in
      sym (append-nil _) ∙ rw nothing at e

  -- A request that an exchange has written with success is read on the other side, however the writes
  -- and the reads are cut: the command with the fields that were set, the signed message and the
  -- payload, and the stream stands at the first byte behind it. Message and payload are within the
  -- limit of a frame.
  pub read-write :
      (limit : ℕ) (x : Exchange) (ctx : Context) (ws : List WriteEvent) (es : List ReadEvent)
      (more : Bytes) (r : Request c)
      → ParsesBack x ctx
      → limit < u32_mod
      → length (encoded x ctx) ≤ limit
      → length (payload_bytes x.payload) ≤ limit
      → WriteConforms (length (concat (frame_iov (encoded x ctx) x.payload))) ws
      → (write c x ctx ws).1.outcome ≡ done
      → stream es ≡ (write c x ctx ws).1.wire ++ more
      → ReadsOn es
      → FrameConforms (length (encoded x ctx)) (length (payload_bytes x.payload)) es
      → ((read c limit r es).0 ≡ arrived x ctx)
        × ((read c limit r es).1 ≡ accepted)
        × (stream (read c limit r es).2 ≡ more)
  unfolding read
  read-write limit x ctx ws es more r back l m v k finished e on conform =
      let (f, left) =
        frame_read-frame_iov limit (encoded x ctx) x.payload more es l m v
          (e ∙ ap (λ b. b ++ more) (write-wire x ctx ws k finished)) on conform in
      let whole = ap (framed_request c r) f ∙ parse_encoded r x ctx back in
      (ap (λ p. p.0) whole, ap (λ p. p.1) whole, left)
