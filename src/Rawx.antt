-- ===== src/Rawx.antt =====
-- src/oio/blob/rawx: the blobs of a rawx service, over the HTTP backend.
pub mod Url
pub mod Command
pub mod Wrapper
pub mod Ends
pub mod Builder
pub mod Download
pub mod Reading
pub mod RoundTrip
