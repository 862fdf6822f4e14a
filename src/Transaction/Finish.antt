-- ===== src/Transaction/Finish.antt =====
-- `ExecutionTransaction::{commit, abort}`
-- (crates/host-coordinator/src/execution_transaction/transaction.rs).
use hosts.Base.{
  ℕ, true, List, [], ◌∷◌, Option, none, some, Str, Result, ok, err, Raise, raised, panicked,
  if◌then◌else◌,
}
use hosts.Base.Collections.{contains, add, keys, values, collect, extend, difference}
use hosts.Base.Order.{nat_ord, str_ord}
use hosts.BoundPlan.{LogicalPartitionId}
use hosts.Transaction.Mirror.{
  TransactionOperation, OperationEvent, StagedWrite, BoundaryRef, BarrierRef, LaunchRef,
  boundary_barrier, boundary_launch, barrier_completed, launch_completed, event_ord,
  boundary_ref_ord,
}
use hosts.Transaction.Operation.{completed_events, partitions_of}
use hosts.Transaction.Reservation.{Reservation}
use hosts.Transaction.State.{
  TransactionState, fresh, prepared, executing, committed, failed, aborted, TransactionFailure,
  publish_failed, cancelled_by, BackendError, CommitError, commit_invalid_state,
  boundary_not_reached, commit_publish_failed, AbortError, already_committed,
}
use hosts.Transaction.Receipt.{TransactionReceipt, decided_commit, decided_abort}
use hosts.Transaction.Backend.{DeviceExecutionBackend}
use hosts.Transaction.Coordinator.{ExecutionTransaction, fail, nanos_u64, build_receipt}
use hosts.Transaction.Prepare.{is_barrier, is_launch, find_operation}
use hosts.Transaction.Execute.{is_executing, record_events}

-- The reference, once for each participant whose event is not completed.
unfoldable pub add_missing :
    BoundaryRef
    → (LogicalPartitionId → OperationEvent)
    → List OperationEvent
    → List LogicalPartitionId
    → List BoundaryRef
    → List BoundaryRef
unfolding contains add
add_missing r event done [] missing = missing
add_missing r event done (p ∷ ps) missing =
    add_missing r event done ps (if contains (event p) done then missing else add r missing)

unfoldable pub missing_of :
    BoundaryRef
    → (LogicalPartitionId → OperationEvent)
    → List OperationEvent
    → Option TransactionOperation
    → List BoundaryRef
    → List BoundaryRef
unfolding add_missing partitions_of
missing_of r event done none missing = add r missing
missing_of r event done (some op) missing = add_missing r event done (partitions_of op) missing

unfoldable pub missing_barriers :
    List TransactionOperation
    → List OperationEvent
    → List BarrierRef
    → List BoundaryRef
    → List BoundaryRef
unfolding missing_of find_operation
missing_barriers ops done [] missing = missing
missing_barriers ops done (r ∷ rs) missing = missing_barriers ops done rs (
    missing_of (boundary_barrier r) (λ p. barrier_completed p r) done
      (find_operation (is_barrier r) ops) missing)

unfoldable pub missing_launches :
    List TransactionOperation
    → List OperationEvent
    → List LaunchRef
    → List BoundaryRef
    → List BoundaryRef
unfolding missing_of find_operation
missing_launches ops done [] missing = missing
missing_launches ops done (r ∷ rs) missing = missing_launches ops done rs (
    missing_of (boundary_launch r) (λ p. launch_completed p r) done
      (find_operation (is_launch r) ops) missing)

unfoldable pub missing_boundary_refs : ExecutionTransaction → List BoundaryRef
unfolding missing_barriers missing_launches
missing_boundary_refs t =
    missing_launches t.operations t.completed_events t.commit_boundary.launches
      (missing_barriers t.operations t.completed_events t.commit_boundary.barriers [])

abbrev pub reserved_partitions : Option Reservation → List LogicalPartitionId
unfolding collect
reserved_partitions none = []
reserved_partitions (some r) = collect (keys r)

abbrev write_partitions : List StagedWrite → List LogicalPartitionId
write_partitions [] = []
write_partitions (w ∷ ws) = w.partition ∷ write_partitions ws

unfoldable pub staged_partitions : ExecutionTransaction → List LogicalPartitionId
unfolding collect
staged_partitions t = collect (write_partitions (values t.staged_write_set))

abbrev pub Committed : Type 0
Committed = Result TransactionReceipt (Raise CommitError)

abbrev pub Aborted : Type 0
Aborted = Result TransactionReceipt (Raise AbortError)

-- The receipt is recorded and returned; `none` is the panic of a missing decision.
abbrev pub with_receipt :
    {B E : Type 0}
    → ExecutionTransaction
    → B
    → Option TransactionReceipt
    → ExecutionTransaction × B × Result TransactionReceipt (Raise E)
with_receipt t b none = (t, b, err panicked)
with_receipt t b (some r) = (record t { receipt = some r }, b, ok r)

module _ {B : Type 0} (d : DeviceExecutionBackend B) where
  unfoldable pub refresh : List TransactionOperation → B → List OperationEvent → List OperationEvent
  unfolding record_events completed_events
  refresh [] b done = done
  refresh (op ∷ ops) b done = refresh ops b (record_events d (completed_events op) b done)

  unfoldable pub release_all : List LogicalPartitionId → B → B
  release_all [] b = b
  release_all (p ∷ ps) b = release_all ps (d.release p b)

  unfoldable pub retire_all : TransactionFailure → List LogicalPartitionId → B → B
  retire_all f [] b = b
  retire_all f (p ∷ ps) b = retire_all f ps (d.retire p f b)

  -- `nanos` is the time that the call took, `ordinal` the publication ordinal that is recorded.
  unfoldable pub conclude : ℕ → ℕ → ExecutionTransaction → B → ExecutionTransaction × B × Committed
  unfolding release_all build_receipt nanos_u64 extend
  conclude nanos ordinal t b =
      let reserved = reserved_partitions t.reservation in
      let b' = release_all reserved b in
      let t' : ExecutionTransaction = record t {
        teardown = record teardown {
          released_partitions = extend teardown.released_partitions reserved;
        };
        publish_summary = some (record {
          staged_bytes = d.staged_bytes b';
          published_bytes = d.published_bytes b';
          atomic = true;
        });
        decision = some (decided_commit ordinal);
        state = committed;
        timings = record timings { finalize_nanos = nanos_u64 nanos };
      } in
      with_receipt t' b' (build_receipt t')
    where
      open t use {teardown, timings}

  -- `debug` prints an error as `{error:?}` does.
  abbrev pub publish_or_fail :
      (BackendError → Str)
      → ℕ
      → ℕ
      → ExecutionTransaction
      → B × Option BackendError
      → ExecutionTransaction × B × Committed
  publish_or_fail debug nanos ordinal t (b, some e) =
      (fail (publish_failed (debug e)) t, b, err (raised (commit_publish_failed e)))
  publish_or_fail debug nanos ordinal t (b, none) = conclude nanos ordinal t b

  abbrev pub if_reached :
      (BackendError → Str)
      → ℕ
      → ℕ
      → ExecutionTransaction
      → B
      → List BoundaryRef
      → ExecutionTransaction × B × Committed
  if_reached debug nanos ordinal t b [] = publish_or_fail debug nanos ordinal t (d.publish b)
  if_reached debug nanos ordinal t b (r ∷ rs) = (t, b, err (raised (boundary_not_reached (r ∷ rs))))

  abbrev pub refreshed : ExecutionTransaction → B → ExecutionTransaction
  refreshed t b = record t { completed_events = refresh t.operations b t.completed_events }

  unfoldable pub commit :
      (BackendError → Str) → ℕ → ℕ → ExecutionTransaction → B → ExecutionTransaction × B × Committed
  unfolding conclude refresh missing_boundary_refs fail
  commit debug nanos ordinal t b =
      if is_executing t.state
      then if_reached debug nanos ordinal (refreshed t b) b (missing_boundary_refs (refreshed t b))
      else (t, b, err (raised (commit_invalid_state t.state)))

  abbrev pub abort_failure : TransactionState → Str → TransactionFailure
  abort_failure (failed f) reason = f
  abort_failure fresh reason = cancelled_by reason
  abort_failure prepared reason = cancelled_by reason
  abort_failure executing reason = cancelled_by reason
  abort_failure committed reason = cancelled_by reason
  abort_failure (aborted f) reason = cancelled_by reason

  unfoldable pub tear_down :
      ℕ → TransactionFailure → ExecutionTransaction → B → ExecutionTransaction × B × Aborted
  unfolding release_all retire_all build_receipt nanos_u64 extend difference staged_partitions
  tear_down nanos f t b =
      let staged = staged_partitions t in
      let held = difference (reserved_partitions t.reservation) staged in
      let b' = release_all held (retire_all f staged b) in
      let t' : ExecutionTransaction = record t {
        teardown = record teardown {
          retired_partitions = extend teardown.retired_partitions staged;
          released_partitions = extend teardown.released_partitions held;
        };
        failure = some f;
        state = aborted f;
        decision = some (decided_abort f);
        timings = record timings { finalize_nanos = nanos_u64 nanos };
      } in
      with_receipt t' b' (build_receipt t')
    where
      open t use {teardown, timings}

  abbrev pub receipt_or_panic : Option TransactionReceipt → Aborted
  receipt_or_panic none = err panicked
  receipt_or_panic (some r) = ok r

  abbrev pub abort_in :
      TransactionState → ℕ → Str → ExecutionTransaction → B → ExecutionTransaction × B × Aborted
  abort_in (aborted f) nanos reason t b = (t, b, receipt_or_panic t.receipt)
  abort_in committed nanos reason t b = (t, b, err (raised already_committed))
  abort_in fresh nanos reason t b = tear_down nanos (abort_failure fresh reason) t b
  abort_in prepared nanos reason t b = tear_down nanos (abort_failure prepared reason) t b
  abort_in executing nanos reason t b = tear_down nanos (abort_failure executing reason) t b
  abort_in (failed f) nanos reason t b = tear_down nanos (abort_failure (failed f) reason) t b

  unfoldable pub abort : ℕ → Str → ExecutionTransaction → B → ExecutionTransaction × B × Aborted
  unfolding tear_down
  abort nanos reason t b = abort_in t.state nanos reason t b
