-- ===== src/Http/Builder.antt =====
-- The builders of src/oio/blob/http/blob.cpp: the requests that its transactions start with.
use oio_sds_cpp.Prelude.{[], ◌∷◌, Bytes, bytes, pos, negsuc}
use oio_sds_cpp.Prelude.Map.{Map, insert}
use oio_sds_cpp.Http.Request.{Request, new_request, set_field, set_fields, add_trailer}

-- The fields of UploadBuilder, RemovalBuilder and DownloadBuilder; the last one has no trailers.
pub record Builder : Type 0 where
  pub host : Bytes
  pub name : Bytes
  pub fields : Map Bytes
  pub trailers : Map (Unit {0})

abbrev pub new_builder : Builder
new_builder = record { host = []; name = []; fields = []; trailers = [] }

-- UploadBuilder::Name
abbrev pub set_name : Builder → Bytes → Builder
set_name b s = record b { name = s }

-- UploadBuilder::Host
abbrev pub set_host : Builder → Bytes → Builder
set_host b s = record b { host = s }

-- UploadBuilder::Field
abbrev pub add_field : Builder → Bytes → Bytes → Builder
add_field b k v = record b { fields = insert b.fields k v }

abbrev add_trailers : Request → Map (Unit {0}) → Request
add_trailers r [] = r
add_trailers r ((t, _) ∷ trailers) = add_trailers (add_trailer r t) trailers

abbrev to_host : Builder → Bytes → Request
to_host b method =
    set_field (record new_request { method = method; selector = b.name }) (bytes "Host") b.host

-- UploadBuilder::Build
abbrev pub upload_request : Builder → Request
upload_request b =
    set_fields
      (add_trailers (record (to_host b (bytes "PUT")) { content_length = negsuc 0 }) b.trailers)
      b.fields

-- RemovalBuilder::Build
abbrev pub removal_request : Builder → Request
removal_request b =
    set_fields
      (add_trailers
        (set_field (record (to_host b (bytes "DELETE")) { content_length = negsuc 0 })
          (bytes "Expect") (bytes "100-continue"))
        b.trailers)
      b.fields

-- DownloadBuilder::Build
abbrev pub download_request : Builder → Request
download_request b =
    set_fields (record (to_host b (bytes "GET")) { content_length = pos 0 }) b.fields
