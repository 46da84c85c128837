-- ===== src/Local.antt =====
-- src/oio/blob/local/blob.cpp: blobs kept as files.
pub mod FileSystem
pub mod Upload
pub mod Removal
pub mod Download
