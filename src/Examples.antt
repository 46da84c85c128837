-- ===== src/Examples.antt =====
-- Concrete runs of the models: tests, and the theorems at inputs that meet their hypotheses.
mod Memory
mod Sockets
mod Drives
mod Uploads
mod Roundtrips
mod Listings
mod Chunks
mod Requests
mod Rawx
mod Files
mod Addresses
mod Erasure
mod Commands
mod Directories
