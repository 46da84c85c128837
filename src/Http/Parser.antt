-- ===== src/Http/Parser.antt =====
-- http::Reply::Context and the hooks of src/utils/http.cpp. The parser is http-parser, a library of the
-- build: a parameter. A hook is `none` where its assertion fails.
use oio_sds_cpp.Prelude.{
  ℕ, ◌*◌, ltb, if◌then◌else◌, List, [], ◌∷◌, ◌++◌, Option, some, none, Bytes, take, ℤ, pos, negsuc,
}
use oio_sds_cpp.Prelude.Map.{Map, insert}

-- The hooks of http_parser_settings, with the bytes that they are given.
pub data Callback : Type 0 where
  message_begin headers_complete message_complete chunk_header chunk_complete : Callback
  header_field header_value body : Bytes → Callback

-- http_parser_execute: the parser after it, the bytes that it has managed, and the hooks that it calls.
pub record Parser : Type 1 where
  pub State : Type 0
  pub start : State
  pub resume : State → State
  pub execute : State → Bytes → State × ℕ × List Callback
  pub status_code : State → ℕ

-- Socket::read: a number of bytes, or an error.
pub data Recv : Type 0 where
  gave : Bytes → Recv
  failed : Recv

-- Reply::Step
pub data Stage : Type 0 where
  beginning headers body finished : Stage

abbrev pub stage_rank : Stage → ℕ
stage_rank beginning = 0
stage_rank headers = 1
stage_rank body = 2
stage_rank finished = 3

module _ (P : Parser) where
  -- Reply::Context; `buffer` is what of the working buffer was received, `capacity` its size.
  pub record Context : Type 0 where
    pub fields : Map Bytes
    pub content_length : ℤ
    pub step : Stage
    pub tmp : Bytes
    pub body_bytes : List Bytes
    pub buffer : Bytes
    pub capacity : ℕ
    pub buffer_offset : ℕ
    pub buffer_length : ℕ
    pub parser : P.State

  -- Reply::Context::Context
  abbrev pub new_context : Context
  new_context = record {
    fields = [];
    content_length = negsuc 0;
    step = beginning;
    tmp = [];
    body_bytes = [];
    buffer = [];
    capacity = 2048;
    buffer_offset = 0;
    buffer_length = 0;
    parser = P.start;
  }

  -- Reply::Context::Reset; the offset and the length of the buffer stay.
  abbrev pub reset : Context → Context
  reset c = record c {
    step = beginning;
    fields = [];
    body_bytes = [];
    buffer = take 2048 c.buffer;
    capacity = 2048;
    content_length = negsuc 0;
    parser = P.start;
  }

  -- The size of the buffer once the headers are read.
  abbrev pub body_capacity : ℤ → ℕ → ℕ
  body_capacity (negsuc n) capacity = 128 * 1024
  body_capacity (pos n) capacity =
      if ltb (32 * 1024) n then 128 * 1024 else if ltb 2048 n then 8192 else capacity

  in_stage : Stage → Callback → Context → Option Context
  in_stage beginning message_begin c = some (record c { step = headers })
  in_stage headers (header_field b) c = some (record c { tmp = b })
  in_stage headers (header_value b) c = some (record c { fields = insert c.fields c.tmp b })
  in_stage headers headers_complete c =
      some (record c { capacity = body_capacity c.content_length c.capacity; step = body })
  in_stage body (body b) c = some (record c { body_bytes = c.body_bytes ++ b ∷ [] })
  in_stage body message_complete c = some (record c { step = finished })
  in_stage body chunk_header c = some c
  in_stage body chunk_complete c = some c
  in_stage _ _ c = none

  -- The hooks _on_reply_begin, _on_header_field and so on.
  unfoldable pub on_callback : Context → Callback → Option Context
  unfolding in_stage
  on_callback c cb = in_stage c.step cb c

  unfoldable pub on_callbacks : Option Context → List Callback → Option Context
  on_callbacks none cbs = none
  on_callbacks (some c) [] = some c
  on_callbacks (some c) (cb ∷ cbs) = on_callbacks (on_callback c cb) cbs
