-- ===== src/BoundPlan/Bound.antt =====
-- What an accepted `bind` of crates/host-coordinator/src/bound_plan.rs guarantees.
use mathlib.Core.Path.{subst}
use hosts.Base.{
  ℕ, ◌≤◌, ◌<◌, true, List, [], ◌∷◌, Option, none, some, Result, ok, err, length, All, ◌==◌, ◌≡◌,
  ◌≢◌, ◌⊎◌, refl, sym, arith, inl, inr, Bool-cases, Result-cases,
}
use hosts.Base.Order.{str_ord}
use hosts.Base.Collections.{collect, keys}
use hosts.Identity.Device.{PhysicalDeviceId, device_ord}
use hosts.Partition.Receipt.{FixtureIdentityClass, TransportClass}
use hosts.Discovery.Snapshot.{DeviceCapabilities, DeviceDiscoverySnapshot, is_current_generation}
use hosts.DeviceSet.{DeviceSet, MembershipError}
use hosts.DeviceSet.Selection.{IsCurrentMember, validate-IsCurrentMember}
use hosts.BoundPlan.{
  Bindings, bound_devices, BoundPlanKind, implicit_local, distributed, BoundDistributedPlan,
  PartitionBinding,
}
use hosts.BoundPlan.Admit.{LaunchResourceDemand, AdmittedLogicalPlan, is_single_partition}
use hosts.BoundPlan.Bind.{
  Detail, as_membership, snapshot_caps, check_limit, check_device_limits, check_devices,
  is_undeclared, check_launch_resource_limits, bind_checks, first_binding, kind_of, unhashed,
  hashed, bind,
}
use hosts.BoundPlan.Constraints.{
  and_then_ok, require_ok, same_set_eq, Attached, check_bindings-Attached, Satisfied,
  check_constraints-Satisfied,
}

-- A declared demand is within a ceiling that is not zero.
abbrev pub Within : Option ℕ → ℕ → Type 0
Within none limit = Unit
Within (some n) limit = (0 < limit) × (n ≤ limit)

-- The device's recorded capabilities admit the demand.
pub record Launches (demand : LaunchResourceDemand) (snapshot : DeviceDiscoverySnapshot)
    (device : PhysicalDeviceId) : Type 0 where
  pub caps : DeviceCapabilities
  pub recorded : snapshot_caps snapshot device ≡ some caps
  pub threads : Within demand.threads_per_workgroup caps.max_threads_per_workgroup
  pub shared_memory :
      Within demand.workgroup_shared_memory_bytes caps.workgroup_shared_memory_max_bytes

limit-Within :
    (device : PhysicalDeviceId) (n : Option ℕ) (limit : ℕ) (u : Detail) (x : ℕ → ℕ → Detail)
    → check_limit device n limit u x ≡ ok tt
    → Within n limit
limit-Within device none limit u x h = tt
limit-Within device (some n) limit u x h = (ground arith, ground arith)

module _ (demand : LaunchResourceDemand) (snapshot : DeviceDiscoverySnapshot) where
  device-Launches :
      (d : PhysicalDeviceId) (caps : Option DeviceCapabilities)
      → snapshot_caps snapshot d ≡ caps
      → check_device_limits demand d caps ≡ ok tt
      → Launches demand snapshot d
  device-Launches d none e h = absurd (ground arith)
  device-Launches d (some c) e h =
      let (t, m) = and_then_ok _ _ h in
      record {
        caps = c;
        recorded = e;
        threads = limit-Within d _ _ _ _ t;
        shared_memory = limit-Within d _ _ _ _ m;
      }

  devices_launch :
      (ds : List PhysicalDeviceId)
      → check_devices demand snapshot ds ≡ ok tt
      → All (Launches demand snapshot) ds
  unfolding check_devices
  devices_launch [] h = tt
  devices_launch (d ∷ ds) h =
      let (f, r) = and_then_ok _ _ h in
      (device-Launches d (snapshot_caps snapshot d) refl f, devices_launch ds r)

  -- Nothing is asked, or each device admits the demand.
  abbrev pub LaunchFits : List PhysicalDeviceId → Type 0
  LaunchFits ds =
      ((demand.threads_per_workgroup ≡ none) × (demand.workgroup_shared_memory_bytes ≡ none))
      ⊎ All (Launches demand snapshot) ds

  undeclared : (n : Option ℕ) → is_undeclared n ≡ true → n ≡ none
  undeclared none h = refl
  undeclared (some n) h = absurd (ground arith)

  check_launch-LaunchFits :
      (ds : List PhysicalDeviceId)
      → check_launch_resource_limits demand ds snapshot ≡ ok tt
      → LaunchFits ds
  unfolding check_launch_resource_limits
  check_launch-LaunchFits ds h = elim (Bool-cases (is_undeclared demand.threads_per_workgroup)) [
    | inr e ↦ inr (devices_launch ds (ground (arith, e)))
    | inl e ↦ elim (Bool-cases (is_undeclared demand.workgroup_shared_memory_bytes)) [
      | inr f ↦ inr (devices_launch ds (ground (arith, e, f)))
      | inl f ↦ inl (undeclared _ e, undeclared _ f)
    ]
  ]

-- The shape of the plan: a single partition binds its device without a wrapper.
pub data Shape (admitted : AdmittedLogicalPlan) (bindings : Bindings) (kind : BoundPlanKind)
    : Type 0 where
  single :
      (id : List ℕ) (b : PartitionBinding) (rest : Bindings)
      → length admitted.declared_partitions ≡ 1
      → bindings ≡ (id, b) ∷ rest
      → kind ≡ implicit_local b.device b.virtual_partition
      → Shape admitted bindings kind
  several :
      length admitted.declared_partitions ≢ 1
      → kind ≡ distributed bindings
      → Shape admitted bindings kind

first-Shape :
    (admitted : AdmittedLogicalPlan) (bindings : Bindings) (kind : BoundPlanKind)
    → length admitted.declared_partitions ≡ 1
    → first_binding bindings ≡ ok kind
    → Shape admitted bindings kind
first-Shape admitted [] kind n h = absurd (ground arith)
first-Shape admitted ((id, b) ∷ bs) kind n h = single id b bs n refl (ground arith)

kind_of-Shape :
    (admitted : AdmittedLogicalPlan) (bindings : Bindings) (kind : BoundPlanKind)
    → kind_of admitted bindings ≡ ok kind
    → Shape admitted bindings kind
unfolding kind_of is_single_partition
kind_of-Shape admitted bindings kind h =
    elim (Bool-cases (length admitted.declared_partitions == 1)) [
      | inl e ↦ first-Shape admitted bindings kind (ground (arith, e)) (ground (arith, e))
      | inr e ↦ several (λ n. ground (arith, e)) (ground (arith, e))
    ]

-- What an accepted bind has checked, and what its plan says.
pub record BoundWell (sha256 : List ℕ → List ℕ) (admitted : AdmittedLogicalPlan)
    (bindings : Bindings) (device_set : DeviceSet) (snapshot : DeviceDiscoverySnapshot)
    (current : ℕ) (fixture : FixtureIdentityClass) (transport : TransportClass)
    (plan : BoundDistributedPlan) : Type 0 where
  pub fresh : is_current_generation current snapshot ≡ true
  pub members : All (IsCurrentMember snapshot current) device_set
  pub partitions : keys bindings ≡ admitted.declared_partitions
  pub devices : collect (bound_devices bindings) ≡ device_set
  pub attached : All Attached bindings
  pub satisfied : All (Satisfied bindings) admitted.declared_constraints
  pub launches : LaunchFits admitted.launch_resource_demand snapshot device_set
  pub kind : BoundPlanKind
  pub shape : Shape admitted bindings kind
  pub is_plan : plan ≡ hashed sha256 (unhashed admitted device_set snapshot fixture transport kind)

-- What the checks of `bind` have found.
pub record Checked (admitted : AdmittedLogicalPlan) (bindings : Bindings) (device_set : DeviceSet)
    (snapshot : DeviceDiscoverySnapshot) (current : ℕ) : Type 0 where
  pub fresh : is_current_generation current snapshot ≡ true
  pub members : All (IsCurrentMember snapshot current) device_set
  pub partitions : keys bindings ≡ admitted.declared_partitions
  pub devices : collect (bound_devices bindings) ≡ device_set
  pub attached : All Attached bindings
  pub satisfied : All (Satisfied bindings) admitted.declared_constraints
  pub launches : LaunchFits admitted.launch_resource_demand snapshot device_set

membership_ok : (r : Result (Unit {0}) MembershipError) → as_membership r ≡ ok tt → r ≡ ok tt
membership_ok (ok u) h = refl
membership_ok (err e) h = absurd (ground arith)

module _ (admitted : AdmittedLogicalPlan) (bindings : Bindings) (device_set : DeviceSet)
    (snapshot : DeviceDiscoverySnapshot) (current : ℕ) where
  pub checks-Checked :
      bind_checks admitted bindings device_set snapshot current ≡ ok tt
      → Checked admitted bindings device_set snapshot current
  unfolding bind_checks is_current_generation
  checks-Checked h =
      let (a, h1) = and_then_ok _ _ h in
      let (b, h2) = and_then_ok _ _ h1 in
      let (c, h3) = and_then_ok _ _ h2 in
      let (d, h4) = and_then_ok _ _ h3 in
      let (e, h5) = and_then_ok _ _ h4 in
      let (f, g) = and_then_ok _ _ h5 in
      let used = same_set_eq _ _ (require_ok _ _ d) in
      record {
        fresh = require_ok _ _ a;
        members = (validate-IsCurrentMember snapshot current device_set).0 (membership_ok _ b);
        partitions = sym (same_set_eq _ _ (require_ok _ _ c));
        devices = used;
        attached = check_bindings-Attached bindings e;
        satisfied = check_constraints-Satisfied bindings admitted.declared_constraints f;
        launches =
            subst (LaunchFits admitted.launch_resource_demand snapshot) used
              (check_launch-LaunchFits admitted.launch_resource_demand snapshot _ g);
      }

  -- An accepted bind: the snapshot is of the current generation and records each member of the set
  -- under it, the bindings are those of exactly the declared partitions, the set holds exactly the
  -- devices they use, each attached partition is active and on its binding's device, each declared
  -- constraint is satisfied, and each device admits the declared launch demand, if there is any. The
  -- plan has those facts, the kind that the number of partitions asks for, and its own hash.
  pub bind-BoundWell :
      (sha256 : List ℕ → List ℕ) (fixture : FixtureIdentityClass) (carrier : TransportClass)
      (plan : BoundDistributedPlan)
      → bind sha256 admitted bindings device_set snapshot current fixture carrier ≡ ok plan
      → BoundWell sha256 admitted bindings device_set snapshot current fixture carrier plan
  unfolding bind
  bind-BoundWell sha256 fixture carrier plan h =
      elim (Result-cases (bind_checks admitted bindings device_set snapshot current)) [
        | inr (e, x) ↦ absurd (ground (arith, x))
        | inl (u, x) ↦ elim (Result-cases (kind_of admitted bindings)) [
          | inr (e, y) ↦ absurd (ground (arith, x, y))
          | inl (k, y) ↦
              let c = checks-Checked x in
              record {
                fresh = c.fresh;
                members = c.members;
                partitions = c.partitions;
                devices = c.devices;
                attached = c.attached;
                satisfied = c.satisfied;
                launches = c.launches;
                kind = k;
                shape = kind_of-Shape admitted bindings k y;
                is_plan = ground (arith, x, y);
              }
        ]
      ]
