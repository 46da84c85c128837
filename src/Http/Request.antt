-- ===== src/Http/Request.antt =====
-- http::Request of src/utils/http.hpp and src/utils/http.cpp.
use oio_sds_cpp.Prelude.{
  ℕ, zero, suc, ◌+◌, ◌==◌, Bool, true, false, not, if◌then◌else◌, List, [], ◌∷◌, ◌++◌, Option, some,
  none, Bytes, bytes, length, ℤ, pos, negsuc,
}
use oio_sds_cpp.Prelude.Decimal.{decimal}
use oio_sds_cpp.Prelude.Hexadecimal.{hexadecimal}
use oio_sds_cpp.Prelude.Map.{Map, find, insert}
use oio_sds_cpp.Http.Channel.{Channel}

-- http::Code
pub data Code : Type 0 where
  ok client_error server_error network_error done : Code

abbrev pub is_ok_code : Code → Bool
is_ok_code ok = true
is_ok_code _ = false

pub record Request : Type 0 where
  pub method : Bytes
  pub selector : Bytes
  pub fields : Map Bytes
  pub query : Map Bytes
  pub trailers : Map (Unit {0})  -- std::set<std::string>
  pub content_length : ℤ
  pub sent : ℕ

-- Request::Request
abbrev pub new_request : Request
new_request = record {
  method = bytes "GET";
  selector = bytes "/";
  fields = [];
  query = [];
  trailers = [];
  content_length = negsuc 0;
  sent = 0;
}

-- Request::Field
abbrev pub set_field : Request → Bytes → Bytes → Request
set_field r k v = record r { fields = insert r.fields k v }

-- A loop over fields that are set.
abbrev pub set_fields : Request → Map Bytes → Request
set_fields r [] = r
set_fields r ((k, v) ∷ fields) = set_fields (set_field r k v) fields

-- Request::Query
abbrev pub set_query : Request → Bytes → Bytes → Request
set_query r k v = record r { query = insert r.query k v }

-- Request::Trailer
abbrev pub add_trailer : Request → Bytes → Request
add_trailer r k = record r { trailers = insert r.trailers k tt }

abbrev pub crlf : Bytes
crlf = 13 ∷ 10 ∷ []

-- The loop over the query; `mark` is "?" at first and "&" then.
unfoldable pub query_string : Bytes → Map Bytes → Bytes
query_string mark [] = []
query_string mark ((k, v) ∷ query) =
    mark ++ (k ++ (bytes "=" ++ (v ++ query_string (bytes "&") query)))

unfoldable pub request_line : Request → Bytes
unfolding query_string
request_line r =
    r.method
    ++ (bytes " "
        ++ (r.selector ++ (query_string (bytes "?") r.query ++ (bytes " HTTP/1.1" ++ crlf))))

-- The loop over the trailers; `comma` is empty at first.
unfoldable pub trailer_names : Bytes → Map (Unit {0}) → Bytes
trailer_names comma [] = []
trailer_names comma ((t, _) ∷ trailers) = comma ++ (t ++ trailer_names (bytes ", ") trailers)

abbrev pub trailer_header : Map (Unit {0}) → List Bytes
trailer_header [] = []
trailer_header (t ∷ trailers) =
    (bytes "Trailers: " ++ (trailer_names [] (t ∷ trailers) ++ crlf)) ∷ []

-- The headers that tell how long the body is.
unfoldable pub length_headers : ℤ → Map (Unit {0}) → List Bytes
unfolding trailer_names
length_headers (pos n) trailers = (bytes "Content-Length: " ++ (decimal n ++ crlf)) ∷ []
length_headers (negsuc n) trailers =
    (bytes "Transfer-encoding: chunked" ++ crlf) ∷ trailer_header trailers

abbrev pub header_line : Bytes → Bytes → Bytes
header_line k v = k ++ (bytes ": " ++ (v ++ crlf))

abbrev pub field_lines : Map Bytes → List Bytes
field_lines [] = []
field_lines ((k, v) ∷ fields) = header_line k v ∷ field_lines fields

-- The buffers of WriteHeaders.
unfoldable pub headers : Request → List Bytes
unfolding request_line length_headers
headers r =
    request_line r
    ∷ (length_headers r.content_length r.trailers ++ (field_lines r.fields ++ crlf ∷ []))

-- What follows the hexadecimal length in a chunk, and the last chunk.
abbrev pub chunk : Bytes → List Bytes
chunk buf = (hexadecimal (length buf) ++ crlf) ∷ buf ∷ crlf ∷ []

abbrev pub last_chunk : Bytes
last_chunk = bytes "0" ++ (crlf ++ crlf)

-- The lines of FinishRequest for the trailers that are set as fields.
unfoldable pub trailer_lines : Map Bytes → Map (Unit {0}) → List Bytes
trailer_lines fields [] = []
trailer_lines fields ((k, _) ∷ trailers) =
    let rest = trailer_lines fields trailers in
    elim (find fields k) [ none ↦ rest | some v ↦ header_line k v ∷ rest ]

abbrev pub is_positive : ℤ → Bool
is_positive (pos zero) = false
is_positive (pos (suc n)) = true
is_positive (negsuc n) = false

module _ (ch : Channel) where
  -- Request::WriteHeaders
  unfoldable pub write_headers : Request → ch.State → ch.State × Code
  write_headers r s =
      let (s', good) = ch.send s (headers r) in (s', if good then ok else network_error)

  unfoldable pub write_body : Request → ch.State → List Bytes → ℕ → Request × ch.State × Code
  write_body r s iov len =
      let (s', good) = ch.send s iov in
      if good then (record r { sent = r.sent + len }, s', ok) else (r, s', network_error)

  -- Request::Write; `none` is a null buffer.
  unfoldable pub write : Request → ch.State → Option Bytes → Request × ch.State × Code
  unfolding write_body
  write r s none = (r, s, client_error)
  write r s (some []) = (r, s, ok)
  write r s (some (b ∷ buf)) =
      write_body r s (if is_positive r.content_length then (b ∷ buf) ∷ [] else chunk (b ∷ buf))
        (length (b ∷ buf))

  unfoldable pub finish_at : ℤ → Request → ch.State → ch.State × Code
  unfolding trailer_lines
  finish_at (pos n) r s = (s, if r.sent == n then ok else client_error)
  finish_at (negsuc n) r s =
      let (s', good) = ch.send s (last_chunk ∷ []) in
      let (s'', good') = ch.send s' (trailer_lines r.fields r.trailers) in
      if not good then (s', network_error) else (s'', if good' then ok else network_error)

  -- Request::FinishRequest
  unfoldable pub finish_request : Request → ch.State → ch.State × Code
  unfolding finish_at
  finish_request r s = finish_at r.content_length r s
