-- ===== src/Transaction/Backend.antt =====
-- The trait `DeviceExecutionBackend`
-- (crates/host-coordinator/src/execution_transaction/backend.rs). A method that takes `&mut self`
-- returns the backend that it leaves behind.
use hosts.Base.{ℕ, Bool, ◌≡◌, Option, some}
use hosts.BoundPlan.{LogicalPartitionId}
use hosts.Transaction.Mirror.{TransactionOperation, OperationEvent, StagedWrite}
use hosts.Transaction.Reservation.{ReservationRecord}
use hosts.Transaction.State.{BackendError, TransactionFailure}

-- A call's `Result<(), BackendError>` is the error, if there was one.
pub record DeviceExecutionBackend (B : Type 0) : Type 0 where
  pub reserve : LogicalPartitionId → ReservationRecord → B → B × Option BackendError
  pub run_operation : TransactionOperation → B → B × Option BackendError
  pub event_completed : OperationEvent → B → Bool
  pub stage_write : StagedWrite → B → B × Option BackendError
  pub publish : B → B × Option BackendError
  pub staged_bytes : B → ℕ
  pub published_bytes : B → ℕ
  pub release : LogicalPartitionId → B → B
  pub retire : LogicalPartitionId → TransactionFailure → B → B

-- What the trait's documentation promises of what a backend has published, seen through an
-- observation of it: a `publish` that fails publishes nothing, and no other call publishes.
pub record PublishesAtomically {B A : Type 0} (d : DeviceExecutionBackend B) (published : B → A)
    : Type 0 where
  pub reserve_publishes :
      (p : LogicalPartitionId) (r : ReservationRecord) (b : B)
      → published (d.reserve p r b).0 ≡ published b
  pub run_publishes :
      (op : TransactionOperation) (b : B) → published (d.run_operation op b).0 ≡ published b
  pub stage_publishes : (w : StagedWrite) (b : B) → published (d.stage_write w b).0 ≡ published b
  pub failed_publishes :
      (b : B) (e : BackendError)
      → (d.publish b).1 ≡ some e
      → published (d.publish b).0 ≡ published b
  pub release_publishes : (p : LogicalPartitionId) (b : B) → published (d.release p b) ≡ published b
  pub retire_publishes :
      (p : LogicalPartitionId) (f : TransactionFailure) (b : B)
      → published (d.retire p f b) ≡ published b
