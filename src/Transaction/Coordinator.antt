-- ===== src/Transaction/Coordinator.antt =====
-- The record of crates/host-coordinator/src/execution_transaction/transaction.rs, its constructor, and
-- the private helpers that its phases share.
use hosts.Base.{
  ℕ, Bool, true, false, List, [], ◌∷◌, Option, none, some, Str, Result, ok, err, ltb, if◌then◌else◌,
}
use hosts.Base.Word.{u64_mod, u64_max}
use hosts.BoundPlan.{BoundDistributedPlan, is_degenerate, plan_receipt}
use hosts.Transaction.Mirror.{
  TransactionCommitBoundary, TransactionOperation, OperationRef, OperationEvent,
}
use hosts.Transaction.Reservation.{Reservation, WriteSet}
use hosts.Transaction.State.{
  TransactionState, TransactionFailure, ConstructError, fresh, prepared, executing, committed,
  failed, aborted, degenerate_plan, empty_snapshot,
}
use hosts.Transaction.Receipt.{
  TransactionDecision, ExecutedOperationRecord, PublishSummary, TeardownFacts, TransactionTimings,
  TransactionReceipt, no_teardown, no_timings,
}
use hosts.Transport.Records.{TransportReceipt}

pub record ExecutionTransaction : Type 0 where
  pub id : Str
  pub bound_plan : BoundDistributedPlan
  pub operations : List TransactionOperation
  pub commit_boundary : TransactionCommitBoundary
  pub operation_keys : List (OperationRef × ℕ)
  pub state : TransactionState
  pub reservation : Option Reservation
  pub declared_write_set : WriteSet
  pub staged_write_set : WriteSet
  pub executed_operations : List ExecutedOperationRecord
  pub completed_events : List OperationEvent
  pub failure : Option TransactionFailure
  pub decision : Option TransactionDecision
  pub publish_summary : Option PublishSummary
  pub teardown : TeardownFacts
  pub timings : TransactionTimings
  pub transport_receipt : Option TransportReceipt
  pub receipt : Option TransactionReceipt

abbrev pub is_empty {ℓ} : {A : Type ℓ} → List A → Bool
is_empty [] = true
is_empty (x ∷ xs) = false

abbrev pub created :
    Str
    → BoundDistributedPlan
    → List TransactionOperation
    → TransactionCommitBoundary
    → ExecutionTransaction
created id plan operations boundary = record {
  id = id;
  bound_plan = plan;
  operations = operations;
  commit_boundary = boundary;
  operation_keys = [];
  state = fresh;
  reservation = none;
  declared_write_set = [];
  staged_write_set = [];
  executed_operations = [];
  completed_events = [];
  failure = none;
  decision = none;
  publish_summary = none;
  teardown = no_teardown;
  timings = no_timings;
  transport_receipt = none;
  receipt = none;
}

unfoldable pub new_transaction :
    Str
    → BoundDistributedPlan
    → List TransactionOperation
    → TransactionCommitBoundary
    → Result ExecutionTransaction ConstructError
new_transaction id plan operations boundary =
    if is_degenerate plan
    then err degenerate_plan
    else if is_empty operations
    then err empty_snapshot
    else ok (created id plan operations boundary)

unfoldable pub with_transport_receipt :
    TransportReceipt → ExecutionTransaction → ExecutionTransaction
with_transport_receipt r t = record t { transport_receipt = some r }

-- `duration_as_nanos_u64`: nanoseconds that pass 64 bits are read as the largest word.
unfoldable pub nanos_u64 : ℕ → ℕ
nanos_u64 n = if ltb n u64_mod then n else u64_max

abbrev can_fail : TransactionState → Bool
can_fail fresh = true
can_fail prepared = true
can_fail executing = true
can_fail committed = false
can_fail (failed f) = false
can_fail (aborted f) = false

-- The first failure wins.
unfoldable pub fail : TransactionFailure → ExecutionTransaction → ExecutionTransaction
fail f t = if can_fail t.state then record t { failure = some f; state = failed f } else t

abbrev or_empty : Option Reservation → Reservation
or_empty none = []
or_empty (some r) = r

-- `none` is the panic of a receipt with no decision.
unfoldable pub build_receipt : ExecutionTransaction → Option TransactionReceipt
unfolding plan_receipt
build_receipt t = elim t.decision [
  | none ↦ none
  | some d ↦ some (record {
    transaction_id = t.id;
    logical_distributed_plan_hash = t.bound_plan.logical_distributed_plan_hash;
    bound_distributed_plan_hash = t.bound_plan.bound_distributed_plan_hash;
    plan_receipt = plan_receipt t.bound_plan;
    reservation_summary = or_empty t.reservation;
    declared_write_set = t.declared_write_set;
    executed_operations = t.executed_operations;
    synchronization_events = t.completed_events;
    decision = d;
    publish_summary = t.publish_summary;
    teardown = t.teardown;
    timings = t.timings;
    selected_transports = t.transport_receipt;
  })
]
