-- ===== src/Scenarios/World.antt =====
-- A plan of four operations on two partitions, and calls that drive it, as the tests of
-- crates/host-coordinator/src/execution_transaction_test.rs do.
use hosts.Base.{ℕ, List, [], ◌∷◌, some, Str, false, bytes}
use hosts.Identity.Device.{PhysicalDeviceId, metal_facts}
use hosts.Partition.{PartitionBudgetLedger, VirtualDevicePartition, active}
use hosts.Partition.Receipt.{synthetic, host_staged}
use hosts.BoundPlan.{Bindings, BoundDistributedPlan, distributed}
use hosts.Transaction.Mirror.{
  TransactionOperation, launch, transfer, broadcast, barrier, TransactionCommitBoundary, h2d, f32,
  dense, TransferOperationMirror, CollectiveBroadcastMirror,
}
use hosts.Transaction.Mirror.{TransportPathMirror}
use hosts.Transaction.State.{BackendError}
use hosts.Transaction.Coordinator.{ExecutionTransaction, created}
use hosts.Transaction.Fake.{FakeExecutionBackend, new_fake}
use hosts.Transaction.Calls.{Event, calls, prepares, executes, commits}

abbrev pub device : PhysicalDeviceId
device = record { facts = metal_facts (record { registry_id = bytes "m0" }) }

abbrev pub ledger : PartitionBudgetLedger
ledger = record {
  weight_bytes = 10;
  kv_cache_bytes = 10;
  activation_scratch_bytes = 100000;
  module_storage_bytes = 10;
  allocator_overhead_bytes = 10;
  transfer_staging_bytes = 4096;
  concurrent_state_bytes = 10;
}

abbrev pub admitted : ℕ → VirtualDevicePartition
admitted id = record {
  id = id;
  bound_device = device;
  ledger = ledger;
  safe_limit = 200000;
  state = active;
}

abbrev pub alpha : Str
alpha = bytes "a"

abbrev pub beta : Str
beta = bytes "b"

abbrev pub bindings : Bindings
bindings =
    (alpha, record { device = device; virtual_partition = some (admitted 1) })
    ∷ (beta, record { device = device; virtual_partition = some (admitted 2) })
    ∷ []

abbrev pub plan : BoundDistributedPlan
plan = record {
  logical_distributed_plan_hash = bytes "logical";
  kind = distributed bindings;
  device_set = device ∷ [];
  snapshot_id = [];
  fixture_identity_class = synthetic;
  transport_class = host_staged;
  bound_distributed_plan_hash = bytes "bound";
}

abbrev no_boundary : TransactionCommitBoundary
no_boundary = record { barriers = []; launches = [] }

abbrev pub copy : TransferOperationMirror
copy = record {
  id = bytes "t";
  source = alpha;
  destination = beta;
  byte_count = 32;
  direction = h2d;
  element_dtype = f32;
  layout = dense;
  path_label = TransportPathMirror.host_staged;
  producer_generation = 1;
  consumer_generation = 2;
  completion_boundary = no_boundary;
}

abbrev pub share : CollectiveBroadcastMirror
share = record { id = bytes "c"; source = alpha; participants = alpha ∷ beta ∷ []; byte_count = 16 }

abbrev pub operations : List TransactionOperation
operations =
    launch alpha (bytes "l") 64
    ∷ transfer copy
    ∷ broadcast share
    ∷ barrier (bytes "done") (alpha ∷ beta ∷ [])
    ∷ []

abbrev pub boundary : TransactionCommitBoundary
boundary = record { barriers = bytes "done" ∷ []; launches = bytes "l" ∷ [] }

abbrev pub new : ExecutionTransaction
new = created (bytes "tx") plan operations boundary

abbrev pub debug : BackendError → Str
debug e = bytes "error"

abbrev pub to_prepared : List (Event FakeExecutionBackend)
to_prepared = calls (prepares 5) ∷ []

abbrev pub to_executing : List (Event FakeExecutionBackend)
to_executing = calls (prepares 5) ∷ calls (executes 7) ∷ []

abbrev pub to_committed : List (Event FakeExecutionBackend)
to_committed = calls (prepares 5) ∷ calls (executes 7) ∷ calls (commits debug 9 1) ∷ []

abbrev pub start : ExecutionTransaction × FakeExecutionBackend
start = (new, new_fake)

-- A backend on which no event completes by itself.
abbrev pub stalled : ExecutionTransaction × FakeExecutionBackend
stalled = (new, record new_fake { auto_complete = false })
