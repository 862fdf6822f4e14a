-- ===== src/Transaction/State.antt =====
-- The states, failures and errors of a transaction
-- (crates/host-coordinator/src/execution_transaction/{state_machine,errors,backend}.rs).
use hosts.Base.{ℕ, List, Str}
use hosts.BoundPlan.{LogicalPartitionId}
use hosts.Transaction.Mirror.{BarrierRef, LaunchRef, OperationRef, BoundaryRef}
use hosts.Transaction.Reservation.{BudgetClass}

pub data BackendError : Type 0 where
  allocation operation device_loss cancelled timeout : LogicalPartitionId → Str → BackendError

unfoldable pub error_partition : BackendError → LogicalPartitionId
error_partition (allocation p detail) = p
error_partition (operation p detail) = p
error_partition (device_loss p detail) = p
error_partition (cancelled p detail) = p
error_partition (timeout p detail) = p

pub data TransactionFailure : Type 0 where
  backend_failure : BackendError → TransactionFailure
  publish_failed : Str → TransactionFailure
  cancelled_by : Str → TransactionFailure

-- `New` is spelled `fresh`.
pub data TransactionState : Type 0 where
  fresh prepared executing committed : TransactionState
  failed aborted : TransactionFailure → TransactionState

pub data ConstructError : Type 0 where
  degenerate_plan empty_snapshot : ConstructError

pub data PrepareError : Type 0 where
  prepare_invalid_state : TransactionState → PrepareError
  unknown_partition : LogicalPartitionId → ℕ → PrepareError
  duplicate_operation : OperationRef → PrepareError
  undeclared_boundary_barrier : BarrierRef → PrepareError
  undeclared_boundary_launch : LaunchRef → PrepareError
  missing_admitted_budget : LogicalPartitionId → PrepareError
  reservation_exceeds_budget : LogicalPartitionId → BudgetClass → ℕ → ℕ → PrepareError
  prepare_backend : BackendError → PrepareError

pub data ExecuteError : Type 0 where
  execute_invalid_state : TransactionState → ExecuteError
  operation_outside_snapshot : OperationRef → ExecuteError
  execute_backend : BackendError → ExecuteError

pub data CommitError : Type 0 where
  commit_invalid_state : TransactionState → CommitError
  boundary_not_reached : List BoundaryRef → CommitError
  commit_publish_failed : BackendError → CommitError

pub data AbortError : Type 0 where
  already_committed : AbortError
