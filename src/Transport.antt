-- ===== src/Transport.antt =====
-- crates/host-coordinator/src/transport.rs: the host-staged transport of transfers.
pub mod Records
pub mod Spec
pub mod Peers
pub mod Adapter
pub mod Validation
pub mod Accounts
pub mod Landed
pub mod PeerCopies
pub mod Copies
pub mod Runs
pub mod Registry
