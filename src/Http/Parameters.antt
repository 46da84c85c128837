-- ===== src/Http/Parameters.antt =====
-- http::Parameters of src/utils/http.hpp, and the headers of a reply.
use oio_sds_cpp.Prelude.{ℕ, ◌+◌, List, [], ◌∷◌, Option, some, none, Bytes, bytes, length, drop}
use oio_sds_cpp.Prelude.Map.{Map, insert}
use oio_sds_cpp.Prelude.Scan.{index_of}
use oio_sds_cpp.Http.Channel.{Channel}
use oio_sds_cpp.Http.Request.{Request, new_request, set_field, set_fields, Code, ok}
use oio_sds_cpp.Http.Parser.{Parser, Context, new_context, Recv}
use oio_sds_cpp.Http.Call.{Call, Ran, run}

abbrev add_header : Map Bytes → Option ℕ → Bytes → Bytes → Bytes → Map Bytes
add_header found none prefix k v = found
add_header found (some at) prefix k v = insert found (drop (at + length prefix) k) v

-- Reply::GetHeaders, on the fields of the reply: the prefix is looked for anywhere in their names.
unfoldable pub get_headers : Map Bytes → Map Bytes → Bytes → Map Bytes
unfolding index_of
get_headers [] found prefix = found
get_headers ((k, v) ∷ fields) found prefix =
    get_headers fields (add_header found (index_of prefix k) prefix k v) prefix

pub record Parameters : Type 0 where
  pub method : Bytes
  pub selector : Bytes
  pub body_in : Bytes
  pub body_out : Bytes
  pub header_in : Map Bytes
  pub header_out : Option (Map Bytes)  -- what a pointer that is not null points to
  pub header_out_filter : Bytes

-- Parameters::Parameters
abbrev pub new_parameters : Bytes → Bytes → Bytes → Parameters
new_parameters method selector body_in = record {
  method = method;
  selector = selector;
  body_in = body_in;
  body_out = [];
  header_in = [];
  header_out = none;
  header_out_filter = [];
}

-- The request that DoCall makes.
abbrev pub call_request : Parameters → Request
call_request p =
    set_fields
      (set_field (record new_request { method = p.method; selector = p.selector })
        (bytes "Connection") (bytes "keep-alive"))
      p.header_in

module _ (ch : Channel) (P : Parser) where
  -- The map that the caller asked for, once Run returned.
  abbrev headers_out : Code → Context P → Parameters → Option (Map Bytes)
  headers_out ok c p = elim p.header_out [
    | none ↦ none
    | some found ↦ some (get_headers c.fields found p.header_out_filter)
  ]
  headers_out _ c p = p.header_out

  abbrev called : Parameters → Option (Ran ch P) → Option (Call ch P × Parameters × Code)
  called p none = none
  called p (some (c, out, rc)) =
      some (c, record p { body_out = out; header_out = headers_out rc c.reply p }, rc)

  -- Parameters::DoCall, on a socket that is connected; `none` as in Run.
  unfoldable pub do_call :
      ℕ → Parameters → ch.State → List Recv → Option (Call ch P × Parameters × Code)
  unfolding run
  do_call fuel p s reads = called p (
      run ch P fuel
        (record { request = call_request p; channel = s; reply = new_context P; reads = reads })
        p.body_in p.body_out)
