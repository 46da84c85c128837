-- ===== src/Ec.antt =====
-- src/oio/blob/ec: objects cut in fragments by an erasure code, one fragment to a rawx service.
pub mod Command
pub mod Code
pub mod Bits
pub mod Fragments
pub mod Gathering
pub mod Slots
pub mod Download
pub mod Offered
pub mod Fetch
pub mod Fetching
pub mod Upload
pub mod Addressed
pub mod Sending
