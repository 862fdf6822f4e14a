-- ===== src/Partition/Admission.antt =====
-- What admission promises, and what an admitted partition keeps through its life
-- (crates/host-coordinator/src/partition.rs).
use hosts.Base.{
  ℕ, ◌+◌, ◌<◌, ◌≡◌, refl, List, [], ◌∷◌, true, false, Option, none, some, Result, ok, err, arith,
  leb, ltb, if◌then◌else◌,
}
use hosts.Base.Word.{u64_mod}
use hosts.Partition.{
  PartitionBudgetLedger, AdmissionRequest, AdmissionError, PartitionFailure, VirtualDevicePartition,
  budget_exceeded, active, failed, torn_down, total_bytes, admit, record_failure, teardown, failure,
  is_active,
}

-- The seven classes added up as integers.
abbrev pub ledger_sum : PartitionBudgetLedger → ℕ
ledger_sum l =
    l.weight_bytes + l.kv_cache_bytes + l.activation_scratch_bytes + l.module_storage_bytes
    + l.allocator_overhead_bytes + l.transfer_staging_bytes + l.concurrent_state_bytes

pub total_bytes-sum :
    (l : PartitionBudgetLedger)
    → total_bytes l ≡ (if ltb (ledger_sum l) u64_mod then some (ledger_sum l) else none)
unfolding total_bytes
total_bytes-sum l = ground arith

-- What the declared total is reported as: nothing when it overflows 64 bits.
abbrev pub reported : ℕ → Option ℕ
reported n = if ltb n u64_mod then some n else none

abbrev pub admission : AdmissionRequest → ℕ → Result VirtualDevicePartition AdmissionError
admission r limit =
    if leb (ledger_sum r.declared) limit
    then ok (record {
      id = r.partition_id;
      bound_device = r.bound_device;
      ledger = r.declared;
      safe_limit = limit;
      state = active;
    })
    else err (budget_exceeded (reported (ledger_sum r.declared)) limit)

-- Under a limit that is a u64, admission accepts exactly the requests whose seven classes, added
-- as integers, stay within the limit. The partition is active and carries the declared ledger,
-- device and limit; a refusal reports the sum, or nothing where it overflows 64 bits.
pub admit-admission :
    (r : AdmissionRequest) (limit : ℕ) → limit < u64_mod → admit r limit ≡ admission r limit
unfolding admit
admit-admission r limit h = ground (arith, total_bytes-sum r.declared)

-- The calls that may follow admission.
pub data Event : Type 0 where
  fails : PartitionFailure → Event
  tears_down : Event

abbrev pub after : VirtualDevicePartition → List Event → VirtualDevicePartition
after p [] = p
after p (fails f ∷ es) = after (record_failure p f) es
after p (tears_down ∷ es) = after (teardown p) es

abbrev pub failures : List PartitionFailure → List Event
failures [] = []
failures (f ∷ fs) = fails f ∷ failures fs

after_failed :
    (p : VirtualDevicePartition) (f : PartitionFailure) (fs : List PartitionFailure)
    → p.state ≡ failed f
    → (after p (failures fs)).state ≡ failed f
unfolding record_failure
after_failed p f [] h = h
after_failed p f (g ∷ fs) h = after_failed (record_failure p g) f fs (ground arith)

after_torn_down :
    (p : VirtualDevicePartition) (es : List Event)
    → p.state ≡ torn_down
    → (after p es).state ≡ torn_down
unfolding record_failure teardown
after_torn_down p [] h = h
after_torn_down p (fails f ∷ es) h = after_torn_down (record_failure p f) es (ground arith)
after_torn_down p (tears_down ∷ es) h = after_torn_down (teardown p) es refl

-- The first failure of an active partition is the one that it keeps, whatever failures follow;
-- and once torn down it reports none and is never active again, whatever calls follow.
pub first_failure_wins :
    (p : VirtualDevicePartition) (f : PartitionFailure) (fs : List PartitionFailure)
    (es : List Event)
    → is_active p ≡ true
    → (failure (after p (fails f ∷ failures fs)) ≡ some f)
      × (failure (after (teardown p) es) ≡ none)
      × (is_active (after (teardown p) es) ≡ false)
unfolding failure is_active record_failure teardown
first_failure_wins p f fs es h =
    ground (arith, after_failed (record_failure p f) f fs, after_torn_down (teardown p) es refl)
