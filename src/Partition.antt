-- ===== src/Partition.antt =====
-- crates/host-coordinator/src/partition.rs: virtual device partitions, a budget ledger admitted
-- against a policy limit, and the life of an admitted partition. A newtype over `u64` is its number.
pub mod Admission
pub mod Receipt
pub mod ReceiptBytes
use hosts.Base.{
  ℕ, ◌≤◌, ◌<◌, Bool, true, false, Option, none, some, Result, ok, err, Str, leb, if◌then◌else◌,
}
use hosts.Base.Word.{u64_mod, checked_add}
use hosts.Identity.Device.{PhysicalDeviceId}

-- The byte classes 1 to 7 of the admission equation; each is a u64.
pub record PartitionBudgetLedger : Type 0 where
  pub weight_bytes : ℕ
  pub kv_cache_bytes : ℕ
  pub activation_scratch_bytes : ℕ
  pub module_storage_bytes : ℕ
  pub allocator_overhead_bytes : ℕ
  pub transfer_staging_bytes : ℕ
  pub concurrent_state_bytes : ℕ

-- The `?` of Rust on an `Option`.
infixl 5 ◌>>=◌
abbrev ◌>>=◌ : {A B : Type 0} → Option A → (A → Option B) → Option B
none >>= f = none
some a >>= f = f a

unfoldable pub total_bytes : PartitionBudgetLedger → Option ℕ
total_bytes l = do
  t₁ ← checked_add 0 l.weight_bytes
  t₂ ← checked_add t₁ l.kv_cache_bytes
  t₃ ← checked_add t₂ l.activation_scratch_bytes
  t₄ ← checked_add t₃ l.module_storage_bytes
  t₅ ← checked_add t₄ l.allocator_overhead_bytes
  t₆ ← checked_add t₅ l.transfer_staging_bytes
  t₇ ← checked_add t₆ l.concurrent_state_bytes
  some t₇

pub record AdmissionRequest : Type 0 where
  pub partition_id : ℕ
  pub bound_device : PhysicalDeviceId
  pub declared : PartitionBudgetLedger

pub data AdmissionError : Type 0 where
  budget_exceeded : Option ℕ → ℕ → AdmissionError

pub data PartitionFailure : Type 0 where
  allocation_failure device_loss : Str → PartitionFailure

pub data PartitionState : Type 0 where
  active : PartitionState
  failed : PartitionFailure → PartitionState
  torn_down : PartitionState

pub record VirtualDevicePartition : Type 0 where
  pub id : ℕ
  pub bound_device : PhysicalDeviceId
  pub ledger : PartitionBudgetLedger
  pub safe_limit : ℕ
  pub state : PartitionState

abbrev admitted : AdmissionRequest → ℕ → VirtualDevicePartition
admitted r limit = record {
  id = r.partition_id;
  bound_device = r.bound_device;
  ledger = r.declared;
  safe_limit = limit;
  state = active;
}

unfoldable pub admit : AdmissionRequest → ℕ → Result VirtualDevicePartition AdmissionError
admit r limit = elim (total_bytes r.declared) [
  | some total ↦
      if leb total limit then ok (admitted r limit) else err (budget_exceeded (some total) limit)
  | none ↦ err (budget_exceeded none limit)
]

unfoldable pub implicit_local :
    ℕ → PhysicalDeviceId → PartitionBudgetLedger → ℕ → Result VirtualDevicePartition AdmissionError
unfolding admit
implicit_local id device ledger limit =
    admit (record { partition_id = id; bound_device = device; declared = ledger }) limit

abbrev pub state_is_active : PartitionState → Bool
state_is_active active = true
state_is_active _ = false

unfoldable pub is_active : VirtualDevicePartition → Bool
is_active p = state_is_active p.state

abbrev state_failure : PartitionState → Option PartitionFailure
state_failure (failed f) = some f
state_failure active = none
state_failure torn_down = none

unfoldable pub failure : VirtualDevicePartition → Option PartitionFailure
failure p = state_failure p.state

unfoldable pub admitted_total_bytes : VirtualDevicePartition → Option ℕ
unfolding total_bytes
admitted_total_bytes p = total_bytes p.ledger

abbrev fail_state : PartitionState → PartitionFailure → PartitionState
fail_state active f = failed f
fail_state s f = s

unfoldable pub record_failure : VirtualDevicePartition → PartitionFailure → VirtualDevicePartition
record_failure p f = record p { state = fail_state p.state f }

unfoldable pub record_allocation_failure : VirtualDevicePartition → Str → VirtualDevicePartition
unfolding record_failure
record_allocation_failure p detail = record_failure p (allocation_failure detail)

unfoldable pub report_device_loss : VirtualDevicePartition → Str → VirtualDevicePartition
unfolding record_failure
report_device_loss p detail = record_failure p (device_loss detail)

unfoldable pub teardown : VirtualDevicePartition → VirtualDevicePartition
teardown p = record p { state = torn_down }
