-- ===== src/Node.antt =====
-- The mesh node of node/src: its records, their signatures, discovery, and what the coordinator does
-- with the records.
pub mod Record
pub mod Signing
pub mod Discover
pub mod Accepted
pub mod Valid
pub mod Snapshot
mod Tests
