-- ===== src/Policy.antt =====
-- The records of crates/host-coordinator/src/policy.rs. The text of a failing fact is the constructor
-- of its message with the values that the message prints.
pub mod Gates
pub mod Ranking
pub mod Evaluate
pub mod Compatible
pub mod Gated
pub mod Precedence
pub mod Sorting
pub mod Ranked
use hosts.Base.{ℕ, Bool, false, List, [], ◌∷◌, Option, none, some, Str}
use hosts.Identity.Device.{DeviceBackend, PhysicalDeviceId}
use hosts.Partition.{PartitionBudgetLedger}
use hosts.Discovery.Snapshot.{
  ComputeCapability, DtypeSurface, empty_surface, DeviceDiscoverySnapshot,
}
use hosts.DeviceSet.{DeviceSetSelection, DeviceTopologySnapshot, LinkGateError}

pub data GateClass : Type 0 where
  health_epoch_membership compatibility required_memory topology_gate : GateClass

unfoldable pub gate_tag : GateClass → ℕ
gate_tag health_epoch_membership = 0
gate_tag compatibility = 1
gate_tag required_memory = 2
gate_tag topology_gate = 3

pub data Fact : Type 0 where
  stale_snapshot : List ℕ → List (PhysicalDeviceId × ℕ) → Fact
  unknown_or_replaced not_a_member no_capability_facts no_budget no_unified_memory :
      PhysicalDeviceId → Fact
  recorded_at : PhysicalDeviceId → ℕ → ℕ → Fact
  selected_below selected_above : ℕ → ℕ → Fact
  unevaluable_capability unevaluable_sm_count : DeviceBackend → Fact
  zero_capability zero_sm_count : Fact
  capability_below : ComputeCapability → ComputeCapability → Fact
  lacks_dtype : PhysicalDeviceId → Str → Fact
  sm_count_below threads_exceed shared_memory_exceeds width_below : ℕ → ℕ → Fact
  unevaluable_limit : Str → Fact
  budget_exceeded total_exceeds : ℕ → ℕ → Fact
  ledger_overflow : ℕ → Fact
  transfer_refused : PhysicalDeviceId → PhysicalDeviceId → LinkGateError → Fact

pub record GateViolation : Type 0 where
  pub gate : GateClass
  pub device : Option PhysicalDeviceId
  pub failing_fact : Fact

pub record PlanRejection : Type 0 where
  pub plan : Str
  pub violations : List GateViolation

pub data Objective : Type 0 where
  latency throughput capacity_reserve cache_affinity expert_hotness transfer_budget power :
      Objective

unfoldable pub objective_tag : Objective → ℕ
objective_tag latency = 0
objective_tag throughput = 1
objective_tag capacity_reserve = 2
objective_tag cache_affinity = 3
objective_tag expert_hotness = 4
objective_tag transfer_budget = 5
objective_tag power = 6

pub data ObjectiveDirection : Type 0 where
  minimize maximize : ObjectiveDirection

abbrev pub direction : Objective → ObjectiveDirection
direction latency = minimize
direction throughput = maximize
direction capacity_reserve = maximize
direction cache_affinity = maximize
direction expert_hotness = maximize
direction transfer_budget = minimize
direction power = minimize

pub record ObjectiveScore : Type 0 where
  pub objective : Objective
  pub value : ℕ

pub record RankedPlan : Type 0 where
  pub rank : ℕ
  pub plan : Str
  pub devices : List PhysicalDeviceId
  pub scores : List ObjectiveScore

-- A `SafePhysicalLimit` is its bytes.
pub record DeclaredConstraints : Type 0 where
  pub current_generation : ℕ
  pub topology : DeviceTopologySnapshot
  pub per_device_budget : List (PhysicalDeviceId × ℕ)
  pub total_budget : Option ℕ

pub record RequiredCapabilities : Type 0 where
  pub min_compute_capability : Option ComputeCapability
  pub min_sm_count : Option ℕ
  pub required_dtypes : DtypeSurface
  pub threads_per_workgroup : Option ℕ
  pub workgroup_shared_memory_bytes : Option ℕ
  pub min_collective_width : Option ℕ
  pub require_unified_memory : Bool

unfoldable pub no_requirements : RequiredCapabilities
unfolding empty_surface
no_requirements = record {
  min_compute_capability = none;
  min_sm_count = none;
  required_dtypes = empty_surface;
  threads_per_workgroup = none;
  workgroup_shared_memory_bytes = none;
  min_collective_width = none;
  require_unified_memory = false;
}

pub record ObjectiveFacts : Type 0 where
  pub latency_nanos : Option ℕ
  pub throughput_tokens_per_sec : Option ℕ
  pub cache_affinity_hit_rate_milli : Option ℕ
  pub expert_hotness_score : Option ℕ
  pub transfer_bytes : Option ℕ
  pub estimated_power_milliwatts : Option ℕ

pub record DeviceAssignment : Type 0 where
  pub device : PhysicalDeviceId
  pub required : PartitionBudgetLedger
  pub required_capabilities : RequiredCapabilities

pub record Transfer : Type 0 where
  pub from : PhysicalDeviceId
  pub to : PhysicalDeviceId

pub record CandidatePlan : Type 0 where
  pub name : Str
  pub assignments : List DeviceAssignment
  pub transfers : List Transfer
  pub declared_total_bytes : ℕ
  pub facts : ObjectiveFacts

pub record PolicyRequest : Type 0 where
  pub discovery : DeviceDiscoverySnapshot
  pub selection : DeviceSetSelection
  pub constraints : DeclaredConstraints
  pub objectives : List Objective
  pub plans : List CandidatePlan
