-- ===== src/Transaction/Receipt.antt =====
-- crates/host-coordinator/src/execution_transaction/receipt.rs. A publication ordinal and a
-- transaction id are the number and the string that they wrap.
use hosts.Base.{ℕ, Bool, List, [], Option, Str, false}
use hosts.BoundPlan.{LogicalPartitionId}
use hosts.Partition.Receipt.{PartitionReceipt}
use hosts.Transaction.Mirror.{TransactionOperation, OperationEvent}
use hosts.Transaction.Reservation.{Reservation, WriteSet}
use hosts.Transaction.State.{TransactionFailure}
use hosts.Transport.Records.{TransportReceipt}

pub data TransactionDecision : Type 0 where
  decided_commit : ℕ → TransactionDecision
  decided_abort : TransactionFailure → TransactionDecision

pub record ExecutedOperationRecord : Type 0 where
  pub operation : TransactionOperation
  pub byte_count : ℕ

pub record PublishSummary : Type 0 where
  pub staged_bytes : ℕ
  pub published_bytes : ℕ
  pub atomic : Bool

pub record TeardownFacts : Type 0 where
  pub released_partitions : List LogicalPartitionId
  pub retired_partitions : List LogicalPartitionId
  pub partial_publication : Bool

pub record TransactionTimings : Type 0 where
  pub prepare_nanos : ℕ
  pub execute_nanos : ℕ
  pub finalize_nanos : ℕ

pub record TransactionReceipt : Type 0 where
  pub transaction_id : Str
  pub logical_distributed_plan_hash : Str
  pub bound_distributed_plan_hash : Str
  pub plan_receipt : PartitionReceipt
  pub reservation_summary : Reservation
  pub declared_write_set : WriteSet
  pub executed_operations : List ExecutedOperationRecord
  pub synchronization_events : List OperationEvent
  pub decision : TransactionDecision
  pub publish_summary : Option PublishSummary
  pub teardown : TeardownFacts
  pub timings : TransactionTimings
  pub selected_transports : Option TransportReceipt

abbrev pub no_teardown : TeardownFacts
no_teardown = record {
  released_partitions = [];
  retired_partitions = [];
  partial_publication = false;
}

abbrev pub no_timings : TransactionTimings
no_timings = record { prepare_nanos = 0; execute_nanos = 0; finalize_nanos = 0 }
