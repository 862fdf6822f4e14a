-- ===== src/Discovery.antt =====
-- crates/host-coordinator/src/discovery.rs: discovery snapshots and the digest that names them.
pub mod Sha256
pub mod Blocks
pub mod Streaming
pub mod Snapshot
pub mod Facts
pub mod Enumerated
pub mod DigestBytes
