-- ===== src/BoundPlan/Bindable.antt =====
-- A plan that `admit` accepted never makes `bind` panic (crates/host-coordinator/src/bound_plan.rs).
use mathlib.Core.Path.{subst}
use hosts.Base.{
  ℕ, Bool, true, false, List, [], ◌∷◌, Option, none, some, Str, raised, panicked, Result, ok, err,
  length, All, not, ◌≡◌, ◌≢◌, refl, sym, ◌∙◌, arith, inl, inr, Option-cases, Result-cases,
}
use hosts.Base.Order.{str_ord}
use hosts.Base.Collections.{get, add, collect, keys, contains}
use hosts.Identity.Device.{DeviceBackend, PhysicalDeviceId, device_ord}
use hosts.Partition.{VirtualDevicePartition}
use hosts.Partition.Receipt.{FixtureIdentityClass, TransportClass}
use hosts.Discovery.Snapshot.{DeviceCapabilities, DeviceDiscoverySnapshot, snapshot_is_stale}
use hosts.DeviceSet.{DeviceSet, MembershipError, validate}
use hosts.BoundPlan.{LogicalPartitionId, Bindings, bound_devices}
use hosts.BoundPlan.Admit.{
  DeclaredPlacementConstraint, distinct_physical_devices, colocated, required_backend,
  LaunchResourceDemand, AdmittedLogicalPlan, admit, with_launch_resource_demand,
}
use hosts.BoundPlan.Bind.{
  Check, Detail, device_set_differs, partition_set_differs, unevaluable_threads,
  unevaluable_shared_memory, threads_exceed, shared_memory_exceeds, topology_mismatch,
  stale_snapshot, BindError, Verdict, and_then, require, as_membership, as_violation, same_set,
  check_attachment, check_bindings, colocated_devices, at_most_one, check_backends,
  check_constraint, check_constraints, snapshot_caps, check_limit, check_device_limits,
  check_devices, check_launch_resource_limits, bind_checks, first_binding, kind_of, bind,
}
use hosts.BoundPlan.Admitted.{References, admit-Admits}
use hosts.BoundPlan.Bound.{checks-Checked}
use hosts.BoundPlan.Constraints.{require_ok, same_set_eq}

-- A check that does not panic.
abbrev Safe : Check → Type 0
Safe c = c ≢ err panicked

and_then-Safe : (a b : Check) → Safe a → (a ≡ ok tt → Safe b) → Safe (and_then a b)
and_then-Safe (ok u) b s t = t refl
and_then-Safe (err e) b s t = s

require-Safe : (b : Bool) (e : BindError) → Safe (require b e)
require-Safe true e h = ground arith
require-Safe false e h = ground arith

membership-Safe : (r : Result (Unit {0}) MembershipError) → Safe (as_membership r)
membership-Safe (ok u) h = ground arith
membership-Safe (err e) h = ground arith

attachment-Safe :
    (id : LogicalPartitionId) (d : PhysicalDeviceId) (p : Option VirtualDevicePartition)
    → Safe (check_attachment id d p)
attachment-Safe id d none h = ground arith
attachment-Safe id d (some p) h = ground arith

check_bindings-Safe : (bs : Bindings) → Safe (check_bindings bs)
unfolding check_bindings
check_bindings-Safe [] = λ h. ground arith
check_bindings-Safe ((id, b) ∷ bs) =
    and_then-Safe _ _ (attachment-Safe id b.device b.virtual_partition)
      (λ e. check_bindings-Safe bs)

limit-Safe :
    (d : PhysicalDeviceId) (n : Option ℕ) (limit : ℕ) (u : Detail) (x : ℕ → ℕ → Detail)
    → Safe (check_limit d n limit u x)
limit-Safe d none limit u x h = ground arith
limit-Safe d (some n) limit u x h = ground arith

device_limits-Safe :
    (demand : LaunchResourceDemand) (d : PhysicalDeviceId) (c : Option DeviceCapabilities)
    → Safe (check_device_limits demand d c)
device_limits-Safe demand d none = λ h. ground arith
device_limits-Safe demand d (some c) =
    let threads =
      limit-Safe d demand.threads_per_workgroup c.max_threads_per_workgroup unevaluable_threads
        threads_exceed in
    let shared =
      limit-Safe d demand.workgroup_shared_memory_bytes c.workgroup_shared_memory_max_bytes
        unevaluable_shared_memory shared_memory_exceeds in
    and_then-Safe
      (check_limit d demand.threads_per_workgroup c.max_threads_per_workgroup unevaluable_threads
        threads_exceed)
      (check_limit d demand.workgroup_shared_memory_bytes c.workgroup_shared_memory_max_bytes
        unevaluable_shared_memory shared_memory_exceeds)
      threads (λ e. shared)

devices-Safe :
    (demand : LaunchResourceDemand) (snapshot : DeviceDiscoverySnapshot)
    (ds : List PhysicalDeviceId)
    → Safe (check_devices demand snapshot ds)
unfolding check_devices
devices-Safe demand snapshot [] = λ h. ground arith
devices-Safe demand snapshot (d ∷ ds) =
    and_then-Safe _ _ (device_limits-Safe demand d (snapshot_caps snapshot d))
      (λ e. devices-Safe demand snapshot ds)

launch-Safe :
    (demand : LaunchResourceDemand) (ds : List PhysicalDeviceId)
    (snapshot : DeviceDiscoverySnapshot)
    → Safe (check_launch_resource_limits demand ds snapshot)
unfolding check_launch_resource_limits
launch-Safe demand ds snapshot h = ground (arith, devices-Safe demand snapshot ds)

get-keys : (p : LogicalPartitionId) (m : Bindings) → contains p (keys m) ≡ true → get p m ≢ none
unfolding get contains
get-keys p [] h e = absurd (ground arith)
get-keys p ((j, b) ∷ m) h e = ground (arith, get-keys p m)

module _ (bindings : Bindings) where
  abbrev AllBound : List LogicalPartitionId → Type 0
  AllBound ps = All (λ (p : LogicalPartitionId). contains p (keys bindings) ≡ true) ps

  backends-Safe :
      (ps : List LogicalPartitionId) (required : DeviceBackend)
      → AllBound ps
      → check_backends bindings ps required ≢ err panicked
  unfolding check_backends
  backends-Safe [] required a h = ground arith
  backends-Safe (p ∷ ps) required a h = elim (Option-cases (get p bindings)) [
    | inl e ↦ get-keys p bindings a.0 e
    | inr (b, e) ↦ ground (arith, e, backends-Safe ps required a.1)
  ]

  devices_found :
      (ps : List LogicalPartitionId) (s : List PhysicalDeviceId)
      → AllBound ps
      → colocated_devices bindings ps s ≢ none
  unfolding colocated_devices
  devices_found [] s a h = ground arith
  devices_found (p ∷ ps) s a h = elim (Option-cases (get p bindings)) [
    | inl e ↦ get-keys p bindings a.0 e
    | inr (b, e) ↦ devices_found ps (add b.device s) a.1 (ground (arith, e))
  ]

  at_most_one-Safe : (t : Option (List PhysicalDeviceId)) → t ≢ none → at_most_one t ≢ err panicked
  at_most_one-Safe none n h = n refl
  at_most_one-Safe (some t) n h = ground arith

  constraint-Safe :
      (c : DeclaredPlacementConstraint)
      → References (keys bindings) c
      → check_constraint bindings c ≢ err panicked
  unfolding check_constraint
  constraint-Safe distinct_physical_devices a h = ground arith
  constraint-Safe (colocated ps) a h =
      at_most_one-Safe (colocated_devices bindings ps []) (devices_found ps [] a) h
  constraint-Safe (required_backend ps b) a h = backends-Safe ps b a h

  violation-Safe :
      (c : DeclaredPlacementConstraint) (v : Verdict) → v ≢ err panicked → Safe (as_violation c v)
  violation-Safe c (ok u) n h = ground arith
  violation-Safe c (err panicked) n h = n refl
  violation-Safe c (err (raised d)) n h = ground arith

  constraints-Safe :
      (cs : List DeclaredPlacementConstraint)
      → All (References (keys bindings)) cs
      → Safe (check_constraints bindings cs)
  unfolding check_constraints
  constraints-Safe [] a = λ h. ground arith
  constraints-Safe (c ∷ cs) a =
      and_then-Safe _ _ (violation-Safe c _ (constraint-Safe c a.0)) (λ e. constraints-Safe cs a.1)

  first_binding-Safe : keys bindings ≢ [] → first_binding bindings ≢ err panicked
  first_binding-Safe n = nonempty bindings n
    where
      nonempty : (bs : Bindings) → keys bs ≢ [] → first_binding bs ≢ err panicked
      nonempty [] m h = m refl
      nonempty ((id, b) ∷ bs) m h = ground arith

module _ (admitted : AdmittedLogicalPlan) (bindings : Bindings) (device_set : DeviceSet)
    (snapshot : DeviceDiscoverySnapshot) (current : ℕ)
    (known : All (References admitted.declared_partitions) admitted.declared_constraints) where
  checks-Safe : Safe (bind_checks admitted bindings device_set snapshot current)
  unfolding bind_checks
  checks-Safe =
      let used = collect (bound_devices bindings) in
      let constraints = check_constraints bindings admitted.declared_constraints in
      let launch = check_launch_resource_limits admitted.launch_resource_demand used snapshot in
      let last : same_set admitted.declared_partitions (keys bindings) ≡ true
          → Safe (and_then constraints launch) =
        λ e.
          and_then-Safe constraints launch
            (constraints-Safe bindings admitted.declared_constraints (
              subst
                (λ (d : List LogicalPartitionId). All (References d) admitted.declared_constraints)
                (same_set_eq admitted.declared_partitions (keys bindings) e) known))
            (λ x. launch-Safe admitted.launch_resource_demand used snapshot) in
      let c5 = check_bindings bindings in
      let c4 =
        require (same_set used device_set)
          (topology_mismatch (device_set_differs (length device_set) (length used))) in
      let same = same_set admitted.declared_partitions (keys bindings) in
      let c3 = require same (
        topology_mismatch
          (partition_set_differs (length admitted.declared_partitions) (length bindings))) in
      let c2 = as_membership (validate snapshot current device_set) in
      let c1 =
        require (not (snapshot_is_stale current snapshot)) (stale_snapshot snapshot.id current) in
      let r5 = and_then c5 (and_then constraints launch) in
      let r4 = and_then c4 r5 in
      let r3 = and_then c3 r4 in
      and_then-Safe c1 (and_then c2 r3) (require-Safe _ _) (λ e1.
        and_then-Safe c2 r3 (membership-Safe (validate snapshot current device_set)) (λ e2.
          and_then-Safe c3 r4 (require-Safe _ _) (λ e3.
            and_then-Safe c4 r5 (require-Safe _ _) (λ e4.
              and_then-Safe c5 (and_then constraints launch) (check_bindings-Safe bindings)
                (λ e5. last (require_ok same _ e3))))))

  kind_of-Safe :
      admitted.declared_partitions ≢ []
      → bind_checks admitted bindings device_set snapshot current ≡ ok tt
      → kind_of admitted bindings ≢ err panicked
  unfolding kind_of
  kind_of-Safe n c h =
      let p = (checks-Checked admitted bindings device_set snapshot current c).partitions in
      ground (arith, first_binding-Safe bindings (λ e. n (sym p ∙ e)))

-- `bind` of a plan that `admit` accepted, with any launch demand, never panics: each partition that
-- a constraint names has a binding by the time it is looked up, and so has a single partition.
pub bind_never_panics :
    (hash : Str) (ps : List LogicalPartitionId) (cs : List DeclaredPlacementConstraint)
    (plan : AdmittedLogicalPlan) (demand : LaunchResourceDemand) (sha256 : List ℕ → List ℕ)
    (bindings : Bindings) (device_set : DeviceSet) (snapshot : DeviceDiscoverySnapshot)
    (current : ℕ) (fixture : FixtureIdentityClass) (carrier : TransportClass)
    → admit hash ps cs ≡ ok plan
    → bind sha256
        (with_launch_resource_demand demand plan)
        bindings
        device_set
        snapshot
        current
        fixture
        carrier
      ≢ err panicked
unfolding bind with_launch_resource_demand
bind_never_panics hash ps cs plan demand sha256 bindings device_set snapshot current fixture carrier
      a h =
    let w = admit-Admits hash ps cs plan a in
    let asked = with_launch_resource_demand demand plan in
    let known =
      subst (λ (c : List DeclaredPlacementConstraint). All (References plan.declared_partitions) c)
        (sym w.same_constraints) w.referenced in
    elim (Result-cases (bind_checks asked bindings device_set snapshot current)) [
      | inr (e, x) ↦
          checks-Safe asked bindings device_set snapshot current known (ground (arith, x))
      | inl (u, x) ↦ elim (Result-cases (kind_of asked bindings)) [
        | inl (k, y) ↦ ground (arith, x, y)
        | inr (e, y) ↦
            kind_of-Safe asked bindings device_set snapshot current known w.some_partition x
              (ground (arith, x, y))
      ]
    ]
