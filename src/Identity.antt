-- ===== src/Identity.antt =====
-- crates/host-coordinator/src/device_identity.rs: byte helpers, device identity, health epochs.
pub mod Bytes
pub mod Injective
pub mod Device
pub mod DeviceBytes
pub mod Health
