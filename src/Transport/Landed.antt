-- ===== src/Transport/Landed.antt =====
-- What a staged copy leaves on the adapter, written out
-- (crates/host-coordinator/src/transport.rs, `HostStagedAdapter::copy`).
use hosts.Base.{ℕ, [], ◌∷◌, ◌++◌, ◌+◌, true, length, ◌≡◌}
use hosts.Base.Word.{wrap}
use hosts.Base.Collections.{insert, remove}
use hosts.Base.Order.{nat_ord}
use hosts.BoundPlan.{LogicalPartitionId}
use hosts.Transport.Records.{StagingBufferRecord, SelectedTransferRecord, host_staged_copy}
use hosts.Transport.Spec.{TransferSpec, SourceValue}
use hosts.Transport.Validation.{range_bytes}
use hosts.Transport.Adapter.{TransferOutcome, HostStagedAdapter, expected_copy_time_nanos}
use hosts.Transport.Accounts.{saturate}

-- The buffer that a copy of so many bytes takes from the pool.
abbrev pub taken : ℕ → HostStagedAdapter → StagingBufferRecord
taken n a = record { id = wrap (a.staging_pool.next_id + 1); capacity_bytes = n; pinned = true }

-- The adapter with the staging counters moved on, and the buffer taken and given back.
abbrev pub spent : ℕ → HostStagedAdapter → HostStagedAdapter
spent n a = record a {
  staging_pool = record {
    next_id = wrap (a.staging_pool.next_id + 1);
    allocations = wrap (a.staging_pool.allocations + 1);
    active = remove (taken n a).id (insert (taken n a).id (taken n a) a.staging_pool.active);
  };
}

abbrev pub expected_for : TransferSpec → HostStagedAdapter → ℕ
expected_for spec a = expected_copy_time_nanos spec.range.length spec.direction a.rates

-- The record of a copy that landed: the declared facts, the buffer, the next engine and event, and
-- the times.
abbrev pub landing :
    ℕ → TransferSpec → LogicalPartitionId → HostStagedAdapter → SelectedTransferRecord
landing elapsed spec destination a = record {
  transfer_ref = spec.transfer_ref;
  copy_path = host_staged_copy;
  staging = taken spec.range.length a;
  engine = wrap (a.next_engine + 1);
  event = wrap (a.next_event + 1);
  timeout = spec.timeout;
  bytes = spec.range.length;
  elapsed_nanos = saturate elapsed;
  expected_nanos = expected_for spec a;
  direction = spec.direction;
  destination = destination;
}

-- What a copy that landed answers and leaves: the record stands behind the earlier ones, the bytes
-- and the expected time are added to those used, and nothing else but the counters moves.
pub record Landed (elapsed : ℕ) (spec : TransferSpec) (source : SourceValue)
    (destination : LogicalPartitionId) (a a' : HostStagedAdapter) (o : TransferOutcome)
    : Type 0 where
  pub content : o.destination_bytes ≡ range_bytes source spec.range
  pub whole : length o.destination_bytes ≡ spec.range.length
  pub labelled : o.selected ≡ landing elapsed spec destination a
  pub recorded : a'.records ≡ a.records ++ (landing elapsed spec destination a ∷ [])
  pub bytes_added : a'.used_bytes ≡ saturate (a.used_bytes + spec.range.length)
  pub nanos_added : a'.used_time_nanos ≡ saturate (a.used_time_nanos + expected_for spec a)
  pub engine_moved : a'.next_engine ≡ wrap (a.next_engine + 1)
  pub event_moved : a'.next_event ≡ wrap (a.next_event + 1)
  pub pool_back : a'.staging_pool ≡ (spent spec.range.length a).staging_pool
  pub same_budget : a'.declared_budget ≡ a.declared_budget
  pub same_rates : a'.rates ≡ a.rates
  pub same_observations : a'.rate_observations ≡ a.rate_observations
  pub same_delay : a'.simulated_delay ≡ a.simulated_delay
  pub same_failure : a'.simulated_failure ≡ a.simulated_failure
