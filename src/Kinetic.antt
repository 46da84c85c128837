-- ===== src/Kinetic.antt =====
-- src/oio/blob/kinetic/coro: the backend over Kinetic drives.
pub mod Frame
pub mod Exchange
pub mod Commands
pub mod Wired
pub mod Framing
pub mod Client
pub mod Accounting
pub mod Owned
pub mod Signals
pub mod Writing
pub mod Checks
pub mod History
pub mod Stalled
pub mod Upload
pub mod Blocks
pub mod ZeroBlocks
pub mod Targets
pub mod Manifest
pub mod Rolling
pub mod Removal
pub mod Keys
pub mod Sorting
pub mod Download
pub mod Window
pub mod Numbered
pub mod Gathered
pub mod Stores
pub mod RoundTrip
pub mod Listing
pub mod Batches
pub mod Listed
pub mod Ranges
