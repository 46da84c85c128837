-- ===== src/Router.antt =====
-- src/oio/blob/router/blob.cpp: uploads by chunks to the backend that an encoding names.
pub mod Upload
pub mod Chunk
pub mod Download
pub mod Prepared
