-- ===== src/Transaction.antt =====
-- crates/host-coordinator/src/execution_transaction.rs: the execution transaction.
pub mod Mirror
pub mod Operation
pub mod OperationBytes
pub mod Reservation
pub mod ReservationSum
pub mod State
pub mod Receipt
pub mod Backend
pub mod Fake
pub mod Coordinator
pub mod Prepare
pub mod Execute
pub mod Finish
pub mod Answers
pub mod Staging
pub mod Outcomes
pub mod Index
pub mod RunOutcomes
pub mod Accepted
pub mod Budget
pub mod Invariant
pub mod Preserves
pub mod Calls
pub mod Publication
pub mod Boundary
pub mod Ending
pub mod Execution
pub mod Panics
pub mod Commitment
