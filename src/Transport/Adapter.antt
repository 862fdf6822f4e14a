-- ===== src/Transport/Adapter.antt =====
-- `HostStagedAdapter`, `PeerAdapter` and the staging pool of
-- crates/host-coordinator/src/transport.rs. The time that a copy took is an argument, `elapsed`; a
-- call returns the adapter that it leaves behind.
use hosts.Base.{
  ℕ, ◌+◌, ◌/◌, Bool, true, List, [], ◌∷◌, ◌++◌, Option, none, some, Str, bytes, Result, ok, err,
  Raise, raised, panicked, length, ltb, leb, ◌==◌, ◌||◌, if◌then◌else◌,
}
use hosts.Base.Word.{wrap, saturating_add, saturating_mul, div_or_zero}
use hosts.Base.Order.{nat_ord}
use hosts.Base.Collections.{insert, remove}
use hosts.BoundPlan.{LogicalPartitionId}
use hosts.Transaction.Mirror.{TransferRef, TransferDirectionMirror}
use hosts.Transaction.State.{BackendError, operation, timeout}
use hosts.Transaction.Coordinator.{nanos_u64}
use hosts.Transport.Records.{
  MeasuredRates, t1, rate_for, with_rate, host_staged_copy, StagingBufferRecord,
  SelectedTransferRecord, RateObservation, TransportReceipt,
}
use hosts.Transport.Spec.{TransferSpec, SourceValue, TransferRejection, slice, validate_before_copy}
use hosts.Transport.Peers.{DirectedPair, PeerPairRegistry, is_admitted}

abbrev pub small_copy_bytes : ℕ
small_copy_bytes = 16_384

abbrev pub small_copy_latency_nanos : ℕ
small_copy_latency_nanos = 1_300

abbrev pub large_copy_latency_nanos : ℕ
large_copy_latency_nanos = 5_000

unfoldable pub expected_copy_time_nanos : ℕ → TransferDirectionMirror → MeasuredRates → ℕ
unfolding saturating_mul div_or_zero rate_for
expected_copy_time_nanos n direction rates =
    saturating_add
      (if leb n small_copy_bytes then small_copy_latency_nanos else large_copy_latency_nanos)
      (div_or_zero (saturating_mul n 1_000_000_000) (rate_for rates direction))

pub data TransferError : Type 0 where
  rejected : TransferRejection → TransferError
  timed_out : TransferRef → ℕ → ℕ → TransferError
  copy_failed : TransferRef → Str → TransferError
  peer_not_admitted : DirectedPair → TransferError
  peer_not_attempted : DirectedPair → Str → TransferError
  transfer_budget_exceeded : TransferRef → ℕ → ℕ → ℕ → TransferError

-- `print` is the text of an error, as `format!` makes it.
unfoldable pub into_backend_error :
    (TransferError → Str) → TransferError → LogicalPartitionId → BackendError
into_backend_error print (timed_out t declared elapsed) p =
    timeout p (print (timed_out t declared elapsed))
into_backend_error print (rejected r) p = operation p (print (rejected r))
into_backend_error print (copy_failed t detail) p = operation p (print (copy_failed t detail))
into_backend_error print (peer_not_admitted pair) p = operation p (print (peer_not_admitted pair))
into_backend_error print (peer_not_attempted pair detail) p =
    operation p (print (peer_not_attempted pair detail))
into_backend_error print (transfer_budget_exceeded t budget used needed) p =
    operation p (print (transfer_budget_exceeded t budget used needed))

pub record StagingPool : Type 0 where
  pub next_id : ℕ
  pub allocations : ℕ
  pub active : List (ℕ × StagingBufferRecord)

abbrev pub new_pool : StagingPool
new_pool = record { next_id = 0; allocations = 0; active = [] }

abbrev staged_buffer : ℕ → ℕ → StagingBufferRecord
staged_buffer id n = record { id = id; capacity_bytes = n; pinned = true }

-- The counters wrap.
unfoldable pub allocate : ℕ → StagingPool → StagingPool × StagingBufferRecord
unfolding insert
allocate n pool =
    let id = wrap (pool.next_id + 1) in
    (
      record {
        next_id = id;
        allocations = wrap (pool.allocations + 1);
        active = insert id (staged_buffer id n) pool.active;
      },
      staged_buffer id n,
    )

unfoldable pub release_buffer : ℕ → StagingPool → StagingPool
unfolding remove
release_buffer id pool = record pool { active = remove id pool.active }

unfoldable pub active_count : StagingPool → ℕ
active_count pool = length pool.active

pub record TransferBudget : Type 0 where
  pub budget_bytes : ℕ
  pub time_nanos : ℕ

unfoldable pub declared : ℕ → ℕ → TransferBudget
declared n nanos = record { budget_bytes = n; time_nanos = nanos }

pub record TransferOutcome : Type 0 where
  pub selected : SelectedTransferRecord
  pub destination_bytes : List ℕ

pub record HostStagedAdapter : Type 0 where
  pub declared_budget : TransferBudget
  pub used_bytes : ℕ
  pub used_time_nanos : ℕ
  pub staging_pool : StagingPool
  pub rates : MeasuredRates
  pub next_engine : ℕ
  pub next_event : ℕ
  pub records : List SelectedTransferRecord
  pub rate_observations : List RateObservation
  pub simulated_delay : ℕ
  pub simulated_failure : Option Str

abbrev pub new_adapter : TransferBudget → HostStagedAdapter
new_adapter budget = record {
  declared_budget = budget;
  used_bytes = 0;
  used_time_nanos = 0;
  staging_pool = new_pool;
  rates = t1;
  next_engine = 0;
  next_event = 0;
  records = [];
  rate_observations = [];
  simulated_delay = 0;
  simulated_failure = none;
}

unfoldable pub set_simulated_delay : ℕ → HostStagedAdapter → HostStagedAdapter
set_simulated_delay delay a = record a { simulated_delay = delay }

unfoldable pub set_simulated_failure : Option Str → HostStagedAdapter → HostStagedAdapter
set_simulated_failure detail a = record a { simulated_failure = detail }

unfoldable pub record_fixture_measurement :
    TransferDirectionMirror → ℕ → ℕ → HostStagedAdapter → HostStagedAdapter
unfolding saturating_mul with_rate
record_fixture_measurement direction n elapsed a =
    let measured = saturating_mul n 1_000_000_000 / elapsed in
    if elapsed == 0 then a else record a {
      rate_observations =
          a.rate_observations
          ++ (record {
            direction = direction;
            bytes = n;
            elapsed_nanos = elapsed;
            measured_bytes_per_sec = measured;
          }
              ∷ []);
      rates = with_rate a.rates direction measured;
    }

unfoldable pub transport_receipt : HostStagedAdapter → TransportReceipt
transport_receipt a = record {
  records = a.records;
  budget_bytes = a.declared_budget.budget_bytes;
  budget_time_nanos = a.declared_budget.time_nanos;
  used_bytes = a.used_bytes;
  used_time_nanos = a.used_time_nanos;
  rates = a.rates;
  rate_observations = a.rate_observations;
}

abbrev pub Staged : Type 0
Staged = Result (StagingBufferRecord × List ℕ) (Raise TransferError)

abbrev pub staged_in_time : ℕ → TransferSpec → StagingBufferRecord → List ℕ → Staged
staged_in_time elapsed spec buffer landed =
    if ltb spec.timeout elapsed
    then err (raised (timed_out spec.transfer_ref spec.timeout (nanos_u64 elapsed)))
    else ok (buffer, landed)

-- The buffer is released on each path but the panic of the slice.
abbrev pub move_bytes :
    ℕ
    → TransferSpec
    → HostStagedAdapter
    → StagingBufferRecord
    → Option Str
    → Option (List ℕ)
    → HostStagedAdapter × Staged
move_bytes elapsed spec a buffer (some detail) landed = (
  record a { staging_pool = release_buffer buffer.id a.staging_pool },
  err (raised (copy_failed spec.transfer_ref detail)),
)
move_bytes elapsed spec a buffer none none = (a, err panicked)
move_bytes elapsed spec a buffer none (some landed) = (
  record a { staging_pool = release_buffer buffer.id a.staging_pool },
  staged_in_time elapsed spec buffer landed,
)

unfoldable pub run_staged_copy :
    ℕ → TransferSpec → SourceValue → ℕ → HostStagedAdapter → HostStagedAdapter × Staged
unfolding allocate slice release_buffer nanos_u64
run_staged_copy elapsed spec source n a =
    let (pool, buffer) = allocate n a.staging_pool in
    move_bytes elapsed spec (record a { staging_pool = pool }) buffer a.simulated_failure
      (slice source spec.range)

abbrev pub over_budget : ℕ → ℕ → HostStagedAdapter → Bool
over_budget n expected a =
    ltb a.declared_budget.budget_bytes (saturating_add a.used_bytes n)
    || ltb a.declared_budget.time_nanos (saturating_add a.used_time_nanos expected)

abbrev pub Copied : Type 0
Copied = Result TransferOutcome (Raise TransferError)

abbrev pub selected_record :
    ℕ
    → TransferSpec
    → LogicalPartitionId
    → ℕ
    → HostStagedAdapter
    → StagingBufferRecord
    → SelectedTransferRecord
selected_record elapsed spec destination expected a buffer = record {
  transfer_ref = spec.transfer_ref;
  copy_path = host_staged_copy;
  staging = buffer;
  engine = wrap (a.next_engine + 1);
  event = wrap (a.next_event + 1);
  timeout = spec.timeout;
  bytes = spec.range.length;
  elapsed_nanos = nanos_u64 elapsed;
  expected_nanos = expected;
  direction = spec.direction;
  destination = destination;
}

-- Account the budget, then label and record the copy.
abbrev pub settle_copy :
    ℕ
    → TransferSpec
    → LogicalPartitionId
    → ℕ
    → HostStagedAdapter × Staged
    → HostStagedAdapter × Copied
settle_copy elapsed spec destination expected (a, err e) = (a, err e)
settle_copy elapsed spec destination expected (a, ok (buffer, landed)) =
    let selected = selected_record elapsed spec destination expected a buffer in
    (
      record a {
        used_bytes = saturating_add a.used_bytes spec.range.length;
        used_time_nanos = saturating_add a.used_time_nanos expected;
        next_engine = wrap (a.next_engine + 1);
        next_event = wrap (a.next_event + 1);
        records = a.records ++ (selected ∷ []);
      },
      ok (record { selected = selected; destination_bytes = landed }),
    )

abbrev pub copy_validated :
    ℕ
    → TransferSpec
    → SourceValue
    → LogicalPartitionId
    → HostStagedAdapter
    → HostStagedAdapter × Copied
copy_validated elapsed spec source destination a =
    let n = spec.range.length in
    let expected = expected_copy_time_nanos n spec.direction a.rates in
    if over_budget n expected a
    then (
      a,
      err (
          raised (
            transfer_budget_exceeded spec.transfer_ref a.declared_budget.budget_bytes a.used_bytes
              n)),
    )
    else settle_copy elapsed spec destination expected (run_staged_copy elapsed spec source n a)

abbrev pub copy_checked :
    ℕ
    → TransferSpec
    → SourceValue
    → LogicalPartitionId
    → HostStagedAdapter
    → Result (Unit {0}) TransferRejection
    → HostStagedAdapter × Copied
copy_checked elapsed spec source destination a (err r) = (a, err (raised (rejected r)))
copy_checked elapsed spec source destination a (ok u) =
    copy_validated elapsed spec source destination a

unfoldable pub copy :
    ℕ
    → TransferSpec
    → SourceValue
    → LogicalPartitionId
    → HostStagedAdapter
    → HostStagedAdapter × Copied
unfolding validate_before_copy run_staged_copy expected_copy_time_nanos nanos_u64
copy elapsed spec source destination a =
    copy_checked elapsed spec source destination a (validate_before_copy spec source destination)

-- The two signs of the message are written in UTF-8.
abbrev pub peer_detail : Str
peer_detail =
    bytes "real peer copies require a real same-host "
    ++ ((0xe2 ∷ 0x89 ∷ 0xa5 ∷ [])
        ++ (bytes "2-GPU topology (lane queue "
            ++ ((0xc2 ∷ 0xa7 ∷ []) ++ bytes "5b); never fabricated")))

abbrev pub peer_checked :
    PeerPairRegistry → DirectedPair → Result (Unit {0}) TransferRejection → Copied
peer_checked registry pair (err r) = err (raised (rejected r))
peer_checked registry pair (ok u) =
    if is_admitted pair registry
    then err (raised (peer_not_attempted pair peer_detail))
    else err (raised (peer_not_admitted pair))

-- `PeerAdapter::copy`; the adapter is its registry and does not change.
unfoldable pub peer_copy_attempt :
    TransferSpec → SourceValue → LogicalPartitionId → PeerPairRegistry → Copied
unfolding validate_before_copy is_admitted
peer_copy_attempt spec source destination registry =
    peer_checked registry (record { source = spec.source_owner; destination = destination })
      (validate_before_copy spec source destination)
