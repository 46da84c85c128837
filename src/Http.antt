-- ===== src/Http.antt =====
-- src/utils/http.hpp, src/utils/http.cpp and src/oio/blob/http/blob.cpp: the HTTP client and the backend
-- over it.
pub mod Channel
pub mod Request
pub mod Chunks
pub mod Body
pub mod Inline
pub mod Wire
pub mod Parser
pub mod Reply
pub mod Stream
pub mod Call
pub mod Exchange
pub mod Upload
pub mod Removal
pub mod Download
pub mod Outcomes
pub mod Builder
pub mod Parameters
pub mod SocketMap
