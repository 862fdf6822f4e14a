-- ===== src/Transaction/Fake.antt =====
-- `FakeExecutionBackend`
-- (crates/host-coordinator/src/execution_transaction/backend.rs): the in-memory backend that the
-- crate offers beside the trait.
use hosts.Base.{
  ℕ, ◌+◌, ◌-◌, Bool, true, false, List, [], ◌∷◌, ◌++◌, Option, none, some, bytes, if◌then◌else◌,
}
use hosts.Base.Word.{saturating_add, wrap}
use hosts.Base.Collections.{eqb, get, insert, contains, add, difference}
use hosts.Base.Order.{nat_ord, str_ord}
use hosts.BoundPlan.{LogicalPartitionId}
use hosts.Transaction.Mirror.{TransactionOperation, OperationEvent, StagedWrite, event_ord}
use hosts.Transaction.Operation.{completed_events}
use hosts.Transaction.Reservation.{ReservationRecord, Reservation, WriteSet}
use hosts.Transaction.State.{BackendError, allocation, operation, TransactionFailure}
use hosts.Transaction.Backend.{DeviceExecutionBackend}

pub record FakeExecutionBackend : Type 0 where
  pub reservations : Reservation
  pub staged_writes : WriteSet
  pub published_writes : WriteSet
  pub staged_total_bytes : ℕ
  pub published_total_bytes : ℕ
  pub published_once : Bool
  pub executed_operations : List TransactionOperation
  pub dispatched_events : List OperationEvent
  pub completed_events : List OperationEvent
  pub released_partitions : List LogicalPartitionId
  pub retired_partitions : List LogicalPartitionId
  pub auto_complete : Bool

abbrev pub new_fake : FakeExecutionBackend
new_fake = record {
  reservations = [];
  staged_writes = [];
  published_writes = [];
  staged_total_bytes = 0;
  published_total_bytes = 0;
  published_once = false;
  executed_operations = [];
  dispatched_events = [];
  completed_events = [];
  released_partitions = [];
  retired_partitions = [];
  auto_complete = true;
}

unfoldable pub set_auto_complete : Bool → FakeExecutionBackend → FakeExecutionBackend
set_auto_complete on b = record b { auto_complete = on }

unfoldable pub complete_event : OperationEvent → FakeExecutionBackend → FakeExecutionBackend
unfolding add
complete_event e b = record b {
  dispatched_events = add e b.dispatched_events;
  completed_events = add e b.completed_events;
}

unfoldable pub pending_events : FakeExecutionBackend → List OperationEvent
unfolding difference
pending_events b = difference b.dispatched_events b.completed_events

abbrev pub held_twice : LogicalPartitionId → BackendError
held_twice p = allocation p (bytes "partition " ++ (p ++ bytes " already holds a reservation"))

unfoldable pub fake_reserve :
    LogicalPartitionId
    → ReservationRecord
    → FakeExecutionBackend
    → FakeExecutionBackend × Option BackendError
unfolding get insert
fake_reserve p r b = elim (get p b.reservations) [
  | some old ↦ (b, some (held_twice p))
  | none ↦ (record b { reservations = insert p r b.reservations }, none)
]

-- Each event of the operation is dispatched, and completed at once if the backend is set so.
unfoldable pub dispatch_events : List OperationEvent → FakeExecutionBackend → FakeExecutionBackend
unfolding add
dispatch_events [] b = b
dispatch_events (e ∷ es) b = dispatch_events es (record b {
  dispatched_events = add e b.dispatched_events;
  completed_events = if b.auto_complete then add e b.completed_events else b.completed_events;
})

unfoldable pub fake_run_operation :
    TransactionOperation → FakeExecutionBackend → FakeExecutionBackend × Option BackendError
unfolding dispatch_events completed_events
fake_run_operation op b = (
  dispatch_events (completed_events op)
      (record b { executed_operations = b.executed_operations ++ op ∷ [] }),
  none,
)

unfoldable pub fake_event_completed : OperationEvent → FakeExecutionBackend → Bool
unfolding contains
fake_event_completed e b = contains e b.completed_events

abbrev pub staged_twice : StagedWrite → BackendError
staged_twice w = allocation w.partition (bytes "output " ++ (w.output_ref ++ bytes " staged twice"))

unfoldable pub fake_stage_write :
    StagedWrite → FakeExecutionBackend → FakeExecutionBackend × Option BackendError
unfolding get insert
fake_stage_write w b = elim (get w.output_ref b.staged_writes) [
  | some old ↦ (b, some (staged_twice w))
  | none ↦ (
    record b {
      staged_total_bytes = saturating_add b.staged_total_bytes w.byte_count;
      staged_writes = insert w.output_ref w b.staged_writes;
    },
    none,
  )
]

-- The dash of the message, in UTF-8.
abbrev pub em_dash : List ℕ
em_dash = 0xe2 ∷ 0x80 ∷ 0x94 ∷ []

abbrev pub published_twice : BackendError
published_twice =
    operation (bytes "unknown")
      (bytes "publish called twice " ++ (em_dash ++ bytes " publication is one-shot"))

unfoldable pub fake_publish : FakeExecutionBackend → FakeExecutionBackend × Option BackendError
fake_publish b = if b.published_once then (b, some published_twice) else (
  record b {
    published_writes = b.staged_writes;
    published_total_bytes = b.staged_total_bytes;
    published_once = true;
  },
  none,
)

-- `BTreeMap::remove`.
unfoldable pub unreserve : LogicalPartitionId → Reservation → Reservation
unreserve p [] = []
unreserve p ((q, r) ∷ m) = if eqb p q then m else (q, r) ∷ unreserve p m

unfoldable pub fake_release : LogicalPartitionId → FakeExecutionBackend → FakeExecutionBackend
unfolding unreserve add
fake_release p b = record b {
  reservations = unreserve p b.reservations;
  released_partitions = add p b.released_partitions;
}

-- The bytes staged at a partition; `sum` wraps.
unfoldable pub retired_bytes : LogicalPartitionId → WriteSet → ℕ
retired_bytes p [] = 0
retired_bytes p ((o, w) ∷ ws) =
    if eqb w.partition p then wrap (w.byte_count + retired_bytes p ws) else retired_bytes p ws

-- `BTreeMap::retain` on the writes of the other partitions.
unfoldable pub retain_others : LogicalPartitionId → WriteSet → WriteSet
retain_others p [] = []
retain_others p ((o, w) ∷ ws) =
    if eqb w.partition p then retain_others p ws else (o, w) ∷ retain_others p ws

-- `-` on ℕ saturates, as `saturating_sub` does.
unfoldable pub fake_retire :
    LogicalPartitionId → TransactionFailure → FakeExecutionBackend → FakeExecutionBackend
unfolding retired_bytes retain_others unreserve add
fake_retire p f b = record b {
  staged_total_bytes = b.staged_total_bytes - retired_bytes p b.staged_writes;
  staged_writes = retain_others p b.staged_writes;
  reservations = unreserve p b.reservations;
  retired_partitions = add p b.retired_partitions;
}

abbrev pub fake : DeviceExecutionBackend FakeExecutionBackend
fake = record {
  reserve = fake_reserve;
  run_operation = fake_run_operation;
  event_completed = fake_event_completed;
  stage_write = fake_stage_write;
  publish = fake_publish;
  staged_bytes = λ b. b.staged_total_bytes;
  published_bytes = λ b. b.published_total_bytes;
  release = fake_release;
  retire = fake_retire;
}
