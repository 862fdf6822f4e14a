-- ===== src/Scenarios.antt =====
-- Concrete plans and runs: the data, and the theorems at that data.
pub mod World
pub mod Runs
pub mod Records
pub mod Transfers
pub mod Devices
pub mod Plans
pub mod Policies
