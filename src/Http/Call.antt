-- ===== src/Http/Call.antt =====
-- http::Call of src/utils/http.hpp and src/utils/http.cpp: a small request and its reply.
use oio_sds_cpp.Prelude.{
  ℕ, zero, suc, ◌≡◌, ◌∙◌, ap, if◌then◌else◌, List, [], ◌∷◌, Option, some, none, Bytes, length, pos,
}
use oio_sds_cpp.Http.Channel.{Channel}
use oio_sds_cpp.Http.Request.{Request, Code, ok, is_ok_code, write_headers, write, finish_request}
use oio_sds_cpp.Http.Parser.{Parser, Recv, failed, Context, stage_rank}
use oio_sds_cpp.Http.Reply.{read_headers, append_body, BodyRead, read_headers_lost, Consumed}

module _ (ch : Channel) (P : Parser) where
  pub record Call : Type 0 where
    pub request : Request
    pub channel : ch.State
    pub reply : Context P
    pub reads : List Recv

  abbrev on_request : Call → Request × ch.State × Code → Call × Code
  on_request c (r, s, code) = (record c { request = r; channel = s }, code)

  abbrev on_channel : Call → ch.State × Code → Call × Code
  on_channel c (s, code) = (record c { channel = s }, code)

  -- The next part of the request, once this one returned OK.
  abbrev then_send : Call × Code → (Call → Call × Code) → Call × Code
  then_send (c, code) next = if is_ok_code code then next c else (c, code)

  -- The part of Run that sends: ContentLength, WriteHeaders, Write and FinishRequest.
  unfoldable pub send_request : Call → Bytes → Call × Code
  send_request c input =
      let c' = record c { request = record c.request { content_length = pos (length input) } } in
      then_send (on_channel c' (write_headers ch c'.request c'.channel)) (λ c''.
        then_send (on_request c'' (write ch c''.request c''.channel (some input)))
          (λ c'''. on_channel c''' (finish_request ch c'''.request c'''.channel)))

  abbrev go_on_append :
      Option (BodyRead P)
      → (Context P → List Recv → Bytes → Option (Context P × List Recv × Bytes))
      → Option (Context P × List Recv × Bytes)
  go_on_append none next = none
  go_on_append (some (r, out)) next =
      if is_ok_code r.code then next r.ctx r.reads out else some (r.ctx, r.reads, out)

  -- The loop of Run over AppendBody.
  unfoldable pub body_loop :
      ℕ → Context P → List Recv → Bytes → Option (Context P × List Recv × Bytes)
  body_loop zero c reads tmp = none
  body_loop (suc fuel) c reads tmp =
      go_on_append (append_body P fuel c reads tmp)
        (λ c' reads' tmp'. body_loop fuel c' reads' tmp')

  abbrev read_from : ℕ → Option (Consumed P) → Option (Context P × List Recv × Bytes)
  read_from fuel none = none
  read_from fuel (some r) =
      if is_ok_code r.code then body_loop fuel r.ctx r.reads [] else some (r.ctx, r.reads, [])

  abbrev pub Ran : Type 0
  Ran = Call × Bytes × Code

  abbrev replied : Call → Option (Context P × List Recv × Bytes) → Option Ran
  replied c none = none
  replied c (some (ctx, reads, out)) = some (record c { reply = ctx; reads = reads }, out, ok)

  -- Call::Run, with what `*out` held before.
  unfoldable pub run : ℕ → Call → Bytes → Bytes → Option Ran
  run fuel c input out =
      let (c', code) = send_request c input in
      if is_ok_code code
      then replied c' (read_from fuel (read_headers P fuel c'.reply c'.reads))
      else some (c', out, code)

  -- Once the request is sent, Run returns OK and an empty body when the connection is lost before the
  -- first byte of the reply.
  pub run_lost_reply :
      (fuel : ℕ) (c c' : Call) (input out : Bytes) (reads : List Recv)
      → send_request c input ≡ (c', ok)
      → stage_rank c'.reply.step ≡ 0
      → c'.reply.body_bytes ≡ []
      → c'.reply.buffer_length ≡ c'.reply.buffer_offset
      → c'.reads ≡ failed ∷ reads
      → run (suc fuel) c input out ≡ some (record c' { reads = reads }, [], ok)
  unfolding run
  run_lost_reply fuel c c' input out reads e s b l f =
      ap
        (λ (q : Call × Code).
          if is_ok_code q.1
          then replied q.0
              (read_from (suc fuel) (read_headers P (suc fuel) (q.0).reply (q.0).reads))
          else some (q.0, out, q.1))
        e
      ∙ ap (λ rs. replied c' (read_from (suc fuel) (read_headers P (suc fuel) c'.reply rs))) f
      ∙ ap (λ x. replied c' (read_from (suc fuel) x))
          (read_headers_lost P fuel c'.reply reads s b l)
