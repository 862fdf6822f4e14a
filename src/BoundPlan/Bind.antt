-- ===== src/BoundPlan/Bind.antt =====
-- `bind` of crates/host-coordinator/src/bound_plan.rs. A `detail` text is the constructor of its
-- message with the values that the message prints. The SHA-256 of repack_plan.rs is a call of the
-- crate sha2, and the parameter `sha256` here.
use hosts.Base.{
  ℕ, Bool, true, false, List, [], ◌∷◌, ◌++◌, Option, none, some, bytes, Raise, raised, panicked,
  Result, ok, err, length, ltb, ◌==◌, ◌&&◌, if◌then◌else◌, not,
}
use hosts.Base.Order.{Ord, str_ord}
use hosts.Base.Collections.{eqb, get, add, collect, keys}
use hosts.Identity.Device.{DeviceBackend, PhysicalDeviceId, device_ord, backend}
use hosts.Partition.{VirtualDevicePartition, is_active}
use hosts.Partition.Receipt.{FixtureIdentityClass, TransportClass}
use hosts.Discovery.Snapshot.{
  DeviceCapabilities, DeviceDiscoveryEntry, DeviceDiscoverySnapshot, snapshot_is_stale,
}
use hosts.DeviceSet.{DeviceSet, MembershipError, validate, find_entry, same_backend}
use hosts.BoundPlan.{
  LogicalPartitionId, Bindings, bound_devices, BoundPlanKind, implicit_local, distributed,
  BoundDistributedPlan, plan_bytes,
}
use hosts.BoundPlan.Admit.{
  DeclaredPlacementConstraint, distinct_physical_devices, colocated, required_backend,
  LaunchResourceDemand, AdmittedLogicalPlan, is_single_partition, hex_lower,
}

pub data Detail : Type 0 where
  partition_set_differs device_set_differs not_distinct : ℕ → ℕ → Detail
  binds_other_device : ℕ → PhysicalDeviceId → PhysicalDeviceId → Detail
  partition_inactive : ℕ → Detail
  not_colocated : ℕ → Detail
  other_backend : LogicalPartitionId → DeviceBackend → DeviceBackend → Detail
  no_capability_facts : PhysicalDeviceId → Detail
  unevaluable_threads unevaluable_shared_memory : Detail
  threads_exceed shared_memory_exceeds : ℕ → ℕ → Detail

-- `BudgetExceeded` is declared, and `bind` never returns it.
pub data BindError : Type 0 where
  stale_snapshot : List ℕ → ℕ → BindError
  bind_membership : MembershipError → BindError
  topology_mismatch : Detail → BindError
  invalid_partition_binding : LogicalPartitionId → Detail → BindError
  budget_exceeded : LogicalPartitionId → Option ℕ → ℕ → BindError
  constraint_violation : DeclaredPlacementConstraint → Detail → BindError
  launch_resource_limit : PhysicalDeviceId → Detail → BindError

abbrev pub Check : Type 0
Check = Result (Unit {0}) (Raise BindError)

-- The next check, if the one before it passed.
abbrev pub and_then : Check → Check → Check
and_then (ok u) next = next
and_then (err e) next = err e

module _ {K : Type 0} ⦃o : Ord K⦄ where
  -- Equality of sets, which are ascending lists.
  unfoldable pub same_set : List K → List K → Bool
  same_set [] [] = true
  same_set [] (y ∷ ys) = false
  same_set (x ∷ xs) [] = false
  same_set (x ∷ xs) (y ∷ ys) = eqb x y && same_set xs ys

abbrev pub check_attachment :
    LogicalPartitionId → PhysicalDeviceId → Option VirtualDevicePartition → Check
check_attachment id device none = ok tt
check_attachment id device (some p) =
    if not (eqb p.bound_device device)
    then err (raised (invalid_partition_binding id (binds_other_device p.id p.bound_device device)))
    else if not (is_active p)
    then err (raised (invalid_partition_binding id (partition_inactive p.id)))
    else ok tt

unfoldable pub check_bindings : Bindings → Check
unfolding is_active
check_bindings [] = ok tt
check_bindings ((id, b) ∷ bs) =
    and_then (check_attachment id b.device b.virtual_partition) (check_bindings bs)

abbrev pub Verdict : Type 0
Verdict = Result (Unit {0}) (Raise Detail)

-- The devices of the partitions, or a panic where one is not bound.
unfoldable pub colocated_devices :
    Bindings → List LogicalPartitionId → List PhysicalDeviceId → Option (List PhysicalDeviceId)
unfolding get
colocated_devices bindings [] devices = some devices
colocated_devices bindings (p ∷ ps) devices = elim (get p bindings) [
  | some b ↦ colocated_devices bindings ps (add b.device devices)
  | none ↦ none
]

abbrev pub at_most_one : Option (List PhysicalDeviceId) → Verdict
at_most_one none = err panicked
at_most_one (some devices) =
    if ltb 1 (length devices) then err (raised (not_colocated (length devices))) else ok tt

unfoldable pub check_backends : Bindings → List LogicalPartitionId → DeviceBackend → Verdict
unfolding get backend
check_backends bindings [] required = ok tt
check_backends bindings (p ∷ ps) required =
    let rest = check_backends bindings ps required in
    elim (get p bindings) [
      | none ↦ err panicked
      | some b ↦
          if same_backend (backend b.device) required
          then rest
          else err (raised (other_backend p (backend b.device) required))
    ]

unfoldable pub check_constraint : Bindings → DeclaredPlacementConstraint → Verdict
unfolding collect colocated_devices check_backends
check_constraint bindings distinct_physical_devices =
    let distinct = collect (bound_devices bindings) in
    if length distinct == length bindings
    then ok tt
    else err (raised (not_distinct (length bindings) (length distinct)))
check_constraint bindings (colocated ps) = at_most_one (colocated_devices bindings ps [])
check_constraint bindings (required_backend ps b) = check_backends bindings ps b

abbrev pub as_violation : DeclaredPlacementConstraint → Verdict → Check
as_violation c (ok u) = ok tt
as_violation c (err panicked) = err panicked
as_violation c (err (raised d)) = err (raised (constraint_violation c d))

unfoldable pub check_constraints : Bindings → List DeclaredPlacementConstraint → Check
unfolding check_constraint
check_constraints bindings [] = ok tt
check_constraints bindings (c ∷ cs) =
    and_then (as_violation c (check_constraint bindings c)) (check_constraints bindings cs)

abbrev capabilities_of : Option DeviceDiscoveryEntry → Option DeviceCapabilities
capabilities_of none = none
capabilities_of (some e) = some e.capabilities

unfoldable pub snapshot_caps :
    DeviceDiscoverySnapshot → PhysicalDeviceId → Option DeviceCapabilities
unfolding find_entry
snapshot_caps snapshot device = capabilities_of (find_entry device snapshot)

-- One declared demand against the ceiling that the device reports.
abbrev pub check_limit : PhysicalDeviceId → Option ℕ → ℕ → Detail → (ℕ → ℕ → Detail) → Check
check_limit device none limit unevaluable exceeds = ok tt
check_limit device (some n) limit unevaluable exceeds =
    if limit == 0
    then err (raised (launch_resource_limit device unevaluable))
    else if ltb limit n
    then err (raised (launch_resource_limit device (exceeds n limit)))
    else ok tt

abbrev pub check_device_limits :
    LaunchResourceDemand → PhysicalDeviceId → Option DeviceCapabilities → Check
check_device_limits demand device none =
    err (raised (launch_resource_limit device (no_capability_facts device)))
check_device_limits demand device (some caps) =
    and_then
      (check_limit device demand.threads_per_workgroup caps.max_threads_per_workgroup
        unevaluable_threads threads_exceed)
      (check_limit device demand.workgroup_shared_memory_bytes
        caps.workgroup_shared_memory_max_bytes unevaluable_shared_memory shared_memory_exceeds)

unfoldable pub check_devices :
    LaunchResourceDemand → DeviceDiscoverySnapshot → List PhysicalDeviceId → Check
unfolding snapshot_caps
check_devices demand snapshot [] = ok tt
check_devices demand snapshot (d ∷ ds) =
    and_then (check_device_limits demand d (snapshot_caps snapshot d))
      (check_devices demand snapshot ds)

abbrev pub is_undeclared : Option ℕ → Bool
is_undeclared none = true
is_undeclared (some n) = false

unfoldable pub check_launch_resource_limits :
    LaunchResourceDemand → List PhysicalDeviceId → DeviceDiscoverySnapshot → Check
unfolding check_devices
check_launch_resource_limits demand devices snapshot =
    if is_undeclared demand.threads_per_workgroup
      && is_undeclared demand.workgroup_shared_memory_bytes
    then ok tt
    else check_devices demand snapshot devices

abbrev pub as_membership : Result (Unit {0}) MembershipError → Check
as_membership (ok u) = ok tt
as_membership (err e) = err (raised (bind_membership e))

abbrev pub require : Bool → BindError → Check
require true e = ok tt
require false e = err (raised e)

module _ (admitted : AdmittedLogicalPlan) (bindings : Bindings) (device_set : DeviceSet)
    (snapshot : DeviceDiscoverySnapshot) (current : ℕ) where
  -- The checks of `bind`, in their order.
  unfoldable pub bind_checks : Check
  unfolding snapshot_is_stale validate same_set check_bindings check_constraints
      check_launch_resource_limits collect
  bind_checks =
      let used = collect (bound_devices bindings) in
      and_then
        (require (not (snapshot_is_stale current snapshot)) (stale_snapshot snapshot.id current))
        (and_then (as_membership (validate snapshot current device_set)) (
          and_then
            (require (same_set admitted.declared_partitions (keys bindings)) (
              topology_mismatch
                (partition_set_differs (length admitted.declared_partitions) (length bindings))))
            (and_then
              (require (same_set used device_set)
                (topology_mismatch (device_set_differs (length device_set) (length used))))
              (and_then (check_bindings bindings) (
                and_then (check_constraints bindings admitted.declared_constraints)
                  (check_launch_resource_limits admitted.launch_resource_demand used snapshot))))))

abbrev pub first_binding : Bindings → Result BoundPlanKind (Raise BindError)
first_binding [] = err panicked
first_binding ((id, b) ∷ bs) = ok (implicit_local b.device b.virtual_partition)

unfoldable pub kind_of : AdmittedLogicalPlan → Bindings → Result BoundPlanKind (Raise BindError)
unfolding is_single_partition
kind_of admitted bindings =
    if is_single_partition admitted then first_binding bindings else ok (distributed bindings)

-- The plan before its own hash is known.
abbrev pub unhashed :
    AdmittedLogicalPlan
    → DeviceSet
    → DeviceDiscoverySnapshot
    → FixtureIdentityClass
    → TransportClass
    → BoundPlanKind
    → BoundDistributedPlan
unhashed admitted device_set snapshot fixture transport kind = record {
  logical_distributed_plan_hash = admitted.logical_distributed_plan_hash;
  kind = kind;
  device_set = device_set;
  snapshot_id = snapshot.id;
  fixture_identity_class = fixture;
  transport_class = transport;
  bound_distributed_plan_hash = [];
}

unfoldable pub hashed : (List ℕ → List ℕ) → BoundDistributedPlan → BoundDistributedPlan
unfolding plan_bytes hex_lower
hashed sha256 plan = record plan {
  bound_distributed_plan_hash = bytes "sha256:" ++ hex_lower (sha256 (plan_bytes plan));
}

unfoldable pub bind :
    (List ℕ → List ℕ)
    → AdmittedLogicalPlan
    → Bindings
    → DeviceSet
    → DeviceDiscoverySnapshot
    → ℕ
    → FixtureIdentityClass
    → TransportClass
    → Result BoundDistributedPlan (Raise BindError)
unfolding bind_checks kind_of hashed
bind sha256 admitted bindings device_set snapshot current fixture transport =
    elim (bind_checks admitted bindings device_set snapshot current) [
      | err e ↦ err e
      | ok u ↦ elim (kind_of admitted bindings) [
        | err e ↦ err e
        | ok kind ↦
            ok (hashed sha256 (unhashed admitted device_set snapshot fixture transport kind))
      ]
    ]
