-- ===== src/Examples/Chunks.antt =====
-- Runs of the uploads of src/oio/blob/router/blob.cpp.
use oio_sds_cpp.Prelude.{◌≡◌, arith, some, [], bytes}
use oio_sds_cpp.Router.Upload.{RouterUpload, write}
use oio_sds_cpp.Router.Chunk.{write_lem}

abbrev one_byte_left : RouterUpload
one_byte_left = record { buffer = bytes "ab"; xattrs = []; chunk_size = 3 }

one_byte_left-write :
    write 1 one_byte_left (bytes "c") ≡ some (record one_byte_left { buffer = bytes "abc" })
one_byte_left-write = write_lem 0 one_byte_left (bytes "c") (omega arith) (omega arith)
