-- ===== src/Http/Reply.antt =====
-- http::Reply of src/utils/http.hpp and src/utils/http.cpp. A call is `none` where an assertion of the
-- source fails, where it reads behind the bytes of its buffer, where it waits for input that never
-- comes, and where the fuel ends.
use oio_sds_cpp.Prelude.{
  ℕ, zero, suc, ◌+◌, ltb, leb, true, false, if◌then◌else◌, List, [], ◌∷◌, ◌++◌, Option, some, none,
  Bytes, length, drop, ◌≡◌, refl, ◌∙◌, ap, arith,
}
use oio_sds_cpp.Http.Request.{Code, ok, client_error, server_error, network_error, done, is_ok_code}
use oio_sds_cpp.Http.Parser.{
  Parser, Recv, gave, failed, Stage, body, finished, stage_rank, Context, on_callbacks, reset,
}

module _ (P : Parser) where
  pub record Consumed : Type 0 where
    pub ctx : Context P
    pub reads : List Recv
    pub code : Code

  with_code : Option (Context P) → List Recv → Code → Option Consumed
  with_code none reads code = none
  with_code (some c) reads code = some (record { ctx = c; reads = reads; code = code })

  -- The end of the stream: the parser is told, and what it manages is not counted.
  parse_eof : Context P → List Recv → Option Consumed
  unfolding with_code on_callbacks
  parse_eof c reads =
      let (p, managed, cbs) = P.execute c.parser [] in
      with_code (on_callbacks P (some (record c { parser = p })) cbs) reads ok

  parse_ready : Context P → List Recv → Option Consumed
  unfolding with_code on_callbacks
  parse_ready c reads =
      let ready = drop c.buffer_offset c.buffer in
      let (p, managed, cbs) = P.execute (P.resume c.parser) ready in
      let offset = (if ltb 0 managed then c.buffer_offset + managed else c.buffer_offset) in
      if ltb (length c.buffer) c.buffer_length
      then none
      else with_code (on_callbacks P (some (record c { parser = p; buffer_offset = offset })) cbs)
          reads (if ltb 0 managed then ok else server_error)

  -- What was received replaces the buffer.
  abbrev filled : Context P → Bytes → Context P
  filled c b = record c { buffer = b; buffer_offset = 0; buffer_length = length b }

  unfoldable pub receive : Context P → List Recv → Option Consumed
  unfolding parse_eof parse_ready
  receive c [] = none
  receive c (failed ∷ reads) = some (record { ctx = c; reads = reads; code = network_error })
  receive c (gave [] ∷ reads) = parse_eof (filled c []) reads
  receive c (gave (b ∷ bs) ∷ reads) = parse_ready (filled c (b ∷ bs)) reads

  unfoldable pub consume_at : List Bytes → Context P → List Recv → Option Consumed
  unfolding receive
  consume_at (slice ∷ slices) c reads = none
  consume_at [] c reads =
      if leb c.buffer_length c.buffer_offset then receive c reads else parse_ready c reads

  -- Reply::consumeInput
  unfoldable pub consume_input : Context P → List Recv → Option Consumed
  unfolding consume_at
  consume_input c reads = consume_at c.body_bytes c reads

  -- Another round of a loop over consumeInput, or its return.
  abbrev go_on : Option Consumed → (Context P → List Recv → Option Consumed) → Option Consumed
  go_on none next = none
  go_on (some r) next = if is_ok_code r.code then next r.ctx r.reads else some r

  -- The loop of ReadHeaders.
  unfoldable pub headers_loop : ℕ → Context P → List Recv → Option Consumed
  headers_loop zero c reads = none
  headers_loop (suc fuel) c reads =
      let again = go_on (consume_input c reads) (λ c' reads'. headers_loop fuel c' reads') in
      if leb (stage_rank c.step) 1
      then again
      else some (record { ctx = c; reads = reads; code = ok })

  -- Reply::ReadHeaders
  unfoldable pub read_headers : ℕ → Context P → List Recv → Option Consumed
  unfolding headers_loop
  read_headers fuel c reads =
      if ltb 1 (stage_rank c.step)
      then some (record { ctx = c; reads = reads; code = client_error })
      else headers_loop fuel c reads

  -- What ReadBody returns: its code, and the slice.
  abbrev pub BodyRead : Type 0
  BodyRead = Consumed × Bytes

  abbrev go_on_body : Option Consumed → (Context P → List Recv → Option BodyRead) → Option BodyRead
  go_on_body none next = none
  go_on_body (some r) next = if is_ok_code r.code then next r.ctx r.reads else some (r, [])

  abbrev no_slice : Context P → List Recv → Code → Option BodyRead
  no_slice c reads code = some (record { ctx = c; reads = reads; code = code }, [])

  -- A round of ReadBody, without the one that follows it.
  body_round : List Bytes → Stage → Context P → List Recv → Option BodyRead → Option BodyRead
  body_round (slice ∷ slices) step c reads again =
      some (record { ctx = record c { body_bytes = slices }; reads = reads; code = ok }, slice)
  body_round [] finished c reads again = no_slice c reads done
  body_round [] body c reads again = again
  body_round [] _ c reads again = no_slice c reads client_error

  -- Reply::ReadBody
  unfoldable pub read_body : ℕ → Context P → List Recv → Option BodyRead
  unfolding body_round
  read_body zero c reads = none
  read_body (suc fuel) c reads =
      body_round c.body_bytes c.step c reads
        (go_on_body (consume_input c reads) (λ c' reads'. read_body fuel c' reads'))

  -- Reply::AppendBody, with the vector it appends to.
  unfoldable pub append_body : ℕ → Context P → List Recv → Bytes → Option BodyRead
  append_body fuel c reads out = elim (read_body fuel c reads) [
    | none ↦ none
    | some (r, slice) ↦ some (r, (if is_ok_code r.code then out ++ slice else out))
  ]

  -- The loop of Skip; an error ends it.
  skip_loop : ℕ → Context P → List Recv → Option Consumed
  skip_loop zero c reads = none
  skip_loop (suc fuel) c reads =
      let again = go_on (consume_input c reads) (λ c' reads'. skip_loop fuel c' reads') in
      if ltb (stage_rank c.step) 3
      then again
      else some (record { ctx = c; reads = reads; code = ok })

  -- Reply::Skip
  unfoldable pub skip : ℕ → Context P → List Recv → Option (Context P × List Recv)
  unfolding skip_loop
  skip fuel c reads = elim (skip_loop fuel c reads) [
    | none ↦ none
    | some r ↦ some (reset P r.ctx, r.reads)
  ]

  consume_lost :
      (c : Context P) (reads : List Recv)
      → c.body_bytes ≡ []
      → c.buffer_length ≡ c.buffer_offset
      → consume_input c (failed ∷ reads)
        ≡ some (record { ctx = c; reads = reads; code = network_error })
  unfolding consume_input
  consume_lost c reads b l =
      let empty : leb c.buffer_length c.buffer_offset ≡ true = ground arith in
      ap (λ slices. consume_at slices c (failed ∷ reads)) b ∙ rw empty refl

  -- A connection that is lost before the first byte of a reply is a NetworkError of ReadHeaders.
  pub read_headers_lost :
      (fuel : ℕ) (c : Context P) (reads : List Recv)
      → stage_rank c.step ≡ 0
      → c.body_bytes ≡ []
      → c.buffer_length ≡ c.buffer_offset
      → read_headers (suc fuel) c (failed ∷ reads)
        ≡ some (record { ctx = c; reads = reads; code = network_error })
  unfolding read_headers
  read_headers_lost fuel c reads s b l =
      let low : ltb 1 (stage_rank c.step) ≡ false = ground arith in
      let low' : leb (stage_rank c.step) 1 ≡ true = ground arith in
      rw (low, low')
        (ap (λ x. go_on x (λ c' reads'. headers_loop fuel c' reads')) (consume_lost c reads b l))
