-- ===== src/Policy/Gates.antt =====
-- The four gates of crates/host-coordinator/src/policy.rs. Each returns the violations that it
-- records, in order.
use hosts.Base.{
  ℕ, Bool, false, List, [], ◌∷◌, ◌++◌, Option, none, some, Str, bytes, Result, ok, err, ltb, ◌==◌,
  ◌&&◌, ◌||◌, not, if◌then◌else◌,
}
use hosts.Base.Order.{str_ord}
use hosts.Base.Collections.{eqb, get, contains}
use hosts.Identity.Device.{DeviceBackend, cuda, PhysicalDeviceId, device_ord}
use hosts.Identity.Health.{is_stale}
use hosts.Partition.{total_bytes}
use hosts.Discovery.Snapshot.{
  ComputeCapability, DtypeSurface, DeviceCapabilities, DeviceDiscoveryEntry, Devices,
  DeviceDiscoverySnapshot, entry_backend, snapshot_is_stale,
}
use hosts.DeviceSet.{
  DeviceSet, MembershipError, unknown_device, stale_epoch, SelectionError, membership,
  below_minimum, above_maximum, resolve, find_entry, same_backend, DeviceTopologySnapshot,
  traversal_allowed,
}
use hosts.Policy.{
  GateClass, health_epoch_membership, compatibility, required_memory, topology_gate, Fact,
  stale_snapshot, unknown_or_replaced, not_a_member, no_capability_facts, no_budget,
  no_unified_memory, recorded_at, selected_below, selected_above, unevaluable_capability,
  unevaluable_sm_count, zero_capability, zero_sm_count, capability_below, lacks_dtype,
  sm_count_below, threads_exceed, shared_memory_exceeds, width_below, unevaluable_limit,
  budget_exceeded, total_exceeds, ledger_overflow, transfer_refused, GateViolation,
  DeclaredConstraints, RequiredCapabilities, DeviceAssignment, Transfer, CandidatePlan,
  PolicyRequest,
}

abbrev pub violation : GateClass → Option PhysicalDeviceId → Fact → GateViolation
violation gate device fact = record { gate = gate; device = device; failing_fact = fact }

abbrev stale_entries : ℕ → Devices → List (PhysicalDeviceId × ℕ)
stale_entries current [] = []
stale_entries current ((k, e) ∷ ds) =
    let rest = stale_entries current ds in
    if is_stale current e.health_generation then (e.identity, e.health_generation) ∷ rest else rest

abbrev membership_violation : MembershipError → GateViolation
membership_violation (unknown_device id) =
    violation health_epoch_membership (some id) (unknown_or_replaced id)
membership_violation (stale_epoch id recorded current) =
    violation health_epoch_membership (some id) (recorded_at id recorded current)

abbrev selection_violation : SelectionError → GateViolation
selection_violation (membership e) = membership_violation e
selection_violation (below_minimum min actual) =
    violation health_epoch_membership none (selected_below actual min)
selection_violation (above_maximum max actual) =
    violation health_epoch_membership none (selected_above actual max)

unfoldable pub gate_health_epoch_selection : PolicyRequest → Result DeviceSet GateViolation
unfolding snapshot_is_stale is_stale resolve
gate_health_epoch_selection r =
    let current = r.constraints.current_generation in
    if snapshot_is_stale current r.discovery
    then err (
        violation health_epoch_membership none
          (stale_snapshot r.discovery.id (stale_entries current r.discovery.devices)))
    else elim (resolve r.selection r.discovery current) [
      | ok set ↦ ok set
      | err e ↦ err (selection_violation e)
    ]

abbrev pub member_violations : DeviceSet → List DeviceAssignment → List GateViolation
member_violations set [] = []
member_violations set (a ∷ as') =
    let rest = member_violations set as' in
    if contains a.device set
    then rest
    else violation health_epoch_membership (some a.device) (not_a_member a.device) ∷ rest

unfoldable pub gate_membership : CandidatePlan → DeviceSet → List GateViolation
unfolding contains
gate_membership plan set = member_violations set plan.assignments

abbrev compat_violation : PhysicalDeviceId → Fact → GateViolation
compat_violation device fact = violation compatibility (some device) fact

abbrev evaluable_compute_capability :
    DeviceBackend → ComputeCapability → Result ComputeCapability Fact
evaluable_compute_capability backend got =
    if not (same_backend backend cuda)
    then err (unevaluable_capability backend)
    else if got.major == 0 && got.minor == 0
    then err zero_capability
    else ok got

abbrev below : ComputeCapability → ComputeCapability → Bool
below a b = ltb a.major b.major || (a.major == b.major && ltb a.minor b.minor)

abbrev pub capability_facts :
    Option ComputeCapability → DeviceBackend → ComputeCapability → List Fact
capability_facts none backend got = []
capability_facts (some required) backend got = elim (evaluable_compute_capability backend got) [
  | err fact ↦ fact ∷ []
  | ok g ↦ if below g required then capability_below g required ∷ [] else []
]

abbrev evaluable_sm_count : DeviceBackend → ℕ → Result ℕ Fact
evaluable_sm_count backend got =
    if not (same_backend backend cuda)
    then err (unevaluable_sm_count backend)
    else if got == 0
    then err zero_sm_count
    else ok got

abbrev pub sm_count_facts : Option ℕ → DeviceBackend → ℕ → List Fact
sm_count_facts none backend got = []
sm_count_facts (some required) backend got = elim (evaluable_sm_count backend got) [
  | err fact ↦ fact ∷ []
  | ok g ↦ if ltb g required then sm_count_below g required ∷ [] else []
]

abbrev pub dtype_names : List Str
dtype_names = bytes "f32" ∷ bytes "f64" ∷ bytes "f16" ∷ bytes "bf16" ∷ bytes "i8" ∷ bytes "i32" ∷ []

unfoldable pub dtype_supported : DtypeSurface → Str → Bool
dtype_supported s name =
    if eqb name (bytes "f32")
    then s.f32
    else if eqb name (bytes "f64")
    then s.f64
    else if eqb name (bytes "f16")
    then s.f16
    else if eqb name (bytes "bf16")
    then s.bf16
    else if eqb name (bytes "i8")
    then s.i8
    else if eqb name (bytes "i32")
    then s.i32
    else false

abbrev pub dtype_facts : PhysicalDeviceId → DtypeSurface → DtypeSurface → List Str → List Fact
dtype_facts device required surface [] = []
dtype_facts device required surface (name ∷ names) =
    let rest = dtype_facts device required surface names in
    if dtype_supported required name && not (dtype_supported surface name)
    then lacks_dtype device name ∷ rest
    else rest

-- A declared demand that may not exceed a ceiling, and one that a value may not fall below.
abbrev pub ceiling_facts : Option ℕ → ℕ → Str → (ℕ → ℕ → Fact) → List Fact
ceiling_facts none limit field exceeds = []
ceiling_facts (some n) limit field exceeds =
    if limit == 0
    then unevaluable_limit field ∷ []
    else if ltb limit n
    then exceeds n limit ∷ []
    else []

abbrev pub floor_facts : Option ℕ → ℕ → Str → (ℕ → ℕ → Fact) → List Fact
floor_facts none got field below_it = []
floor_facts (some n) got field below_it =
    if got == 0 then unevaluable_limit field ∷ [] else if ltb got n then below_it got n ∷ [] else []

unfoldable pub gate_generic_launch_resources :
    PhysicalDeviceId → DeviceCapabilities → RequiredCapabilities → List Fact
gate_generic_launch_resources device caps required =
    ceiling_facts required.threads_per_workgroup caps.max_threads_per_workgroup
      (bytes "max_threads_per_workgroup") threads_exceed
    ++ (ceiling_facts required.workgroup_shared_memory_bytes caps.workgroup_shared_memory_max_bytes
          (bytes "workgroup_shared_memory_max_bytes") shared_memory_exceeds
        ++ (floor_facts required.min_collective_width caps.collective_width
              (bytes "collective_width") width_below
            ++ (if required.require_unified_memory && not caps.unified_memory
                then no_unified_memory device ∷ []
                else [])))

abbrev pub entry_facts :
    PhysicalDeviceId → RequiredCapabilities → Option DeviceDiscoveryEntry → List Fact
entry_facts device required none = no_capability_facts device ∷ []
entry_facts device required (some e) =
    capability_facts required.min_compute_capability (entry_backend e)
      e.capabilities.compute_capability
    ++ (dtype_facts device required.required_dtypes e.capabilities.dtype_surface dtype_names
        ++ (sm_count_facts required.min_sm_count (entry_backend e) e.capabilities.sm_count
            ++ gate_generic_launch_resources device e.capabilities required))

abbrev pub compat_violations : PhysicalDeviceId → List Fact → List GateViolation
compat_violations device [] = []
compat_violations device (f ∷ fs) = compat_violation device f ∷ compat_violations device fs

abbrev pub assignments_violations :
    DeviceDiscoverySnapshot → List DeviceAssignment → List GateViolation
assignments_violations discovery [] = []
assignments_violations discovery (a ∷ as') =
    compat_violations a.device
      (entry_facts a.device a.required_capabilities (find_entry a.device discovery))
    ++ assignments_violations discovery as'

unfoldable pub gate_compatibility : CandidatePlan → DeviceDiscoverySnapshot → List GateViolation
unfolding find_entry gate_generic_launch_resources dtype_supported entry_backend
gate_compatibility plan discovery = assignments_violations discovery plan.assignments

abbrev pub budget_facts : PhysicalDeviceId → Option ℕ → Option ℕ → List Fact
budget_facts device none total = no_budget device ∷ []
budget_facts device (some limit) (some total) =
    if ltb limit total then budget_exceeded total limit ∷ [] else []
budget_facts device (some limit) none = ledger_overflow limit ∷ []

abbrev pub memory_violations : PhysicalDeviceId → List Fact → List GateViolation
memory_violations device [] = []
memory_violations device (f ∷ fs) =
    violation required_memory (some device) f ∷ memory_violations device fs

abbrev pub budgets_violations :
    List (PhysicalDeviceId × ℕ) → List DeviceAssignment → List GateViolation
budgets_violations budgets [] = []
budgets_violations budgets (a ∷ as') =
    memory_violations a.device
      (budget_facts a.device (get a.device budgets) (total_bytes a.required))
    ++ budgets_violations budgets as'

abbrev pub total_violations : Option ℕ → ℕ → List GateViolation
total_violations none n = []
total_violations (some budget) n =
    if ltb budget n then violation required_memory none (total_exceeds n budget) ∷ [] else []

unfoldable pub gate_memory : CandidatePlan → DeclaredConstraints → List GateViolation
unfolding get total_bytes
gate_memory plan c =
    budgets_violations c.per_device_budget plan.assignments
    ++ total_violations c.total_budget plan.declared_total_bytes

abbrev pub transfers_violations : DeviceTopologySnapshot → List Transfer → List GateViolation
transfers_violations t [] = []
transfers_violations t (x ∷ xs) =
    let rest = transfers_violations t xs in
    elim (traversal_allowed x.from x.to t) [
      | ok u ↦ rest
      | err e ↦ violation topology_gate none (transfer_refused x.from x.to e) ∷ rest
    ]

unfoldable pub gate_topology : CandidatePlan → DeviceTopologySnapshot → List GateViolation
unfolding traversal_allowed
gate_topology plan t = transfers_violations t plan.transfers
