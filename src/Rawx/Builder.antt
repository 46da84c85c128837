-- ===== src/Rawx/Builder.antt =====
-- The builders of src/oio/blob/rawx/blob.cpp, over the builders of the HTTP backend.
use oio_sds_cpp.Prelude.{ℤ, ◌++◌, Bytes, bytes}
use oio_sds_cpp.Prelude.Decimal.{decimal}
use oio_sds_cpp.Http.Builder as HttpBuilder
use oio_sds_cpp.Http.Builder.{Builder, set_host, set_name, add_field}
use oio_sds_cpp.Rawx.Url.{host_port, print_int}
use oio_sds_cpp.Rawx.Command.{RawxCommand, empty_command}

pub record RawxBuilder : Type 0 where
  pub inner : Builder
  pub rawx_param : RawxCommand

abbrev pub new_builder : RawxBuilder
new_builder = record { inner = HttpBuilder.new_builder; rawx_param = empty_command }

abbrev chunk_path : RawxCommand → Bytes
chunk_path c = bytes "/rawx/" ++ c.url.chunk_id

-- RemovalBuilder::set_param and DownloadBuilder::set_param
abbrev pub set_param : RawxBuilder → RawxCommand → RawxBuilder
set_param b c = record {
  inner = set_name (set_host b.inner (host_port c.url)) (chunk_path c);
  rawx_param = c;
}

abbrev set_meta : RawxBuilder → Bytes → Bytes → RawxBuilder
set_meta b k v = record b { inner = add_field b.inner (bytes "X-oio-chunk-meta-" ++ k) v }

-- UploadBuilder::set_param
abbrev pub set_upload_param : RawxBuilder → RawxCommand → RawxBuilder
set_upload_param b c =
    set_param
      (set_meta (set_meta b (bytes "chunk-pos") (decimal c.range.size ++ bytes ".0"))
        (bytes "chunk-id") c.url.chunk_id)
      c

-- UploadBuilder::ContainerId
abbrev pub container_id : RawxBuilder → Bytes → RawxBuilder
container_id b s = set_meta b (bytes "container-id") s

-- UploadBuilder::ContentPath
abbrev pub content_path : RawxBuilder → Bytes → RawxBuilder
content_path b s = set_meta b (bytes "content-path") s

-- UploadBuilder::ContentId
abbrev pub content_id : RawxBuilder → Bytes → RawxBuilder
content_id b s = set_meta b (bytes "content-id") s

-- UploadBuilder::MimeType
abbrev pub mime_type : RawxBuilder → Bytes → RawxBuilder
mime_type b s = set_meta b (bytes "content-mime-type") s

-- UploadBuilder::StoragePolicy
abbrev pub storage_policy : RawxBuilder → Bytes → RawxBuilder
storage_policy b s = set_meta b (bytes "content-storage-policy") s

-- UploadBuilder::ChunkMethod
abbrev pub chunk_method : RawxBuilder → Bytes → RawxBuilder
chunk_method b s = set_meta b (bytes "content-chunk-method") s

-- UploadBuilder::ContentVersion
abbrev pub content_version : RawxBuilder → ℤ → RawxBuilder
content_version b v = set_meta b (bytes "content-version") (print_int v)

-- UploadBuilder::Property
abbrev pub property : RawxBuilder → Bytes → Bytes → RawxBuilder
property b k v = set_meta b (bytes "x-" ++ k) v
