-- ===== src/BoundPlan/Admit.antt =====
-- The admission of a logical plan in crates/host-coordinator/src/bound_plan.rs, and the hex spelling
-- of its hashes.
use hosts.Base.{
  ℕ, ◌+◌, ◌/◌, ◌%◌, Bool, true, false, List, [], ◌∷◌, Option, none, some, Str, bytes, Result, ok,
  err, length, ltb, leb, ◌==◌, ◌&&◌, ◌||◌, if◌then◌else◌,
}
use hosts.Base.Order.{str_ord}
use hosts.Base.Collections.{contains, collect}
use hosts.Identity.Device.{DeviceBackend}
use hosts.BoundPlan.{LogicalPartitionId}

pub data DeclaredPlacementConstraint : Type 0 where
  distinct_physical_devices : DeclaredPlacementConstraint
  colocated : List LogicalPartitionId → DeclaredPlacementConstraint
  required_backend : List LogicalPartitionId → DeviceBackend → DeclaredPlacementConstraint

pub record LaunchResourceDemand : Type 0 where
  pub threads_per_workgroup : Option ℕ
  pub workgroup_shared_memory_bytes : Option ℕ

abbrev pub no_demand : LaunchResourceDemand
no_demand = record { threads_per_workgroup = none; workgroup_shared_memory_bytes = none }

pub data AdmitError : Type 0 where
  unadmitted_logical_hash : Str → AdmitError
  no_declared_partitions : AdmitError
  constraint_references_unknown_partition : LogicalPartitionId → AdmitError

pub record AdmittedLogicalPlan : Type 0 where
  pub logical_distributed_plan_hash : Str
  pub declared_partitions : List LogicalPartitionId
  pub declared_constraints : List DeclaredPlacementConstraint
  pub launch_resource_demand : LaunchResourceDemand

-- `strip_prefix`.
unfoldable pub strip_prefix : Str → Str → Option Str
strip_prefix [] s = some s
strip_prefix (p ∷ ps) [] = none
strip_prefix (p ∷ ps) (c ∷ cs) = if p == c then strip_prefix ps cs else none

-- One of the characters 0 to 9 and a to f.
abbrev pub is_hex_digit : ℕ → Bool
is_hex_digit c = leb 48 c && leb c 57 || leb 97 c && leb c 102

abbrev pub all_hex : Str → Bool
all_hex [] = true
all_hex (c ∷ cs) = is_hex_digit c && all_hex cs

abbrev pub is_hex_digest : Option Str → Bool
is_hex_digest none = false
is_hex_digest (some digest) = length digest == 64 && all_hex digest

unfoldable pub is_sha256_hex : Str → Bool
unfolding strip_prefix
is_sha256_hex hash = is_hex_digest (strip_prefix (bytes "sha256:") hash)

-- `{byte:02x}`: the two digits of a byte.
abbrev pub hex_digit : ℕ → ℕ
hex_digit d = if ltb d 10 then 48 + d else 87 + d

unfoldable pub hex_lower : List ℕ → Str
hex_lower [] = []
hex_lower (b ∷ bs) = hex_digit (b / 16) ∷ hex_digit (b % 16) ∷ hex_lower bs

abbrev pub find_undeclared :
    List LogicalPartitionId → List LogicalPartitionId → Option LogicalPartitionId
find_undeclared [] declared = none
find_undeclared (p ∷ ps) declared =
    if contains p declared then find_undeclared ps declared else some p

unfoldable pub constraint_unknown_partition :
    DeclaredPlacementConstraint → List LogicalPartitionId → Option LogicalPartitionId
unfolding contains
constraint_unknown_partition distinct_physical_devices declared = none
constraint_unknown_partition (colocated ps) declared = find_undeclared ps declared
constraint_unknown_partition (required_backend ps b) declared = find_undeclared ps declared

abbrev pub first_unknown :
    List DeclaredPlacementConstraint → List LogicalPartitionId → Option LogicalPartitionId
first_unknown [] declared = none
first_unknown (c ∷ cs) declared =
    let rest = first_unknown cs declared in
    elim (constraint_unknown_partition c declared) [ some p ↦ some p | none ↦ rest ]

abbrev pub is_empty_set : List LogicalPartitionId → Bool
is_empty_set [] = true
is_empty_set (p ∷ ps) = false

abbrev pub admit_known :
    Str
    → List LogicalPartitionId
    → List DeclaredPlacementConstraint
    → Option LogicalPartitionId
    → Result AdmittedLogicalPlan AdmitError
admit_known hash partitions constraints (some p) = err (constraint_references_unknown_partition p)
admit_known hash partitions constraints none = ok (record {
  logical_distributed_plan_hash = hash;
  declared_partitions = partitions;
  declared_constraints = constraints;
  launch_resource_demand = no_demand;
})

unfoldable pub admit :
    Str
    → List LogicalPartitionId
    → List DeclaredPlacementConstraint
    → Result AdmittedLogicalPlan AdmitError
unfolding is_sha256_hex constraint_unknown_partition collect
admit hash declared constraints =
    let partitions = collect declared in
    if is_sha256_hex hash
    then if is_empty_set partitions
      then err no_declared_partitions
      else admit_known hash partitions constraints (first_unknown constraints partitions)
    else err (unadmitted_logical_hash hash)

unfoldable pub with_launch_resource_demand :
    LaunchResourceDemand → AdmittedLogicalPlan → AdmittedLogicalPlan
with_launch_resource_demand demand plan = record plan { launch_resource_demand = demand }

unfoldable pub is_single_partition : AdmittedLogicalPlan → Bool
is_single_partition plan = length plan.declared_partitions == 1
