-- ===== src/Policy/Compatible.antt =====
-- What the compatibility gate of crates/host-coordinator/src/policy.rs lets pass.
use hosts.Base.{
  ℕ, ◌≤◌, ◌<◌, Bool, true, List, [], ◌∷◌, ◌++◌, Option, none, some, Str, All, ◌&&◌, not,
  if◌then◌else◌, ◌≡◌, ◌⊎◌, refl, arith,
}
use hosts.Identity.Device.{DeviceBackend, cuda, metal, PhysicalDeviceId}
use hosts.Discovery.Snapshot.{
  ComputeCapability, DtypeSurface, DeviceDiscoveryEntry, DeviceDiscoverySnapshot, entry_backend,
}
use hosts.DeviceSet.{find_entry}
use hosts.BoundPlan.Bound.{Within}
use hosts.Policy.{Fact, DeviceAssignment, CandidatePlan}
use hosts.Policy.Gates.{
  capability_facts, sm_count_facts, dtype_names, dtype_supported, dtype_facts, ceiling_facts,
  floor_facts, gate_generic_launch_resources, entry_facts, compat_violations,
  assignments_violations, gate_compatibility,
}

pub append_nil_both {ℓ} : {A : Type ℓ} (xs ys : List A) → xs ++ ys ≡ [] → (xs ≡ []) × (ys ≡ [])
append_nil_both [] ys h = (refl, h)
append_nil_both (x ∷ xs) ys h = absurd (ground arith)

-- The capability is at least the required one, by major and then by minor version.
abbrev pub AtLeast : ComputeCapability → ComputeCapability → Type 0
AtLeast got required =
    (required.major < got.major) ⊎ ((got.major ≡ required.major) × (required.minor ≤ got.minor))

-- A required capability is met by a CUDA device that reports one.
abbrev pub CapabilityMet : Option ComputeCapability → DeviceBackend → ComputeCapability → Type 0
CapabilityMet none backend got = Unit
CapabilityMet (some required) backend got = (backend ≡ cuda) × AtLeast got required

-- A required multiprocessor count is met by a CUDA device that reports one.
abbrev pub CountMet : Option ℕ → DeviceBackend → ℕ → Type 0
CountMet none backend got = Unit
CountMet (some required) backend got = (backend ≡ cuda) × ((0 < got) × (required ≤ got))

-- A required width is met by a width that is not zero.
abbrev pub WidthMet : Option ℕ → ℕ → Type 0
WidthMet none got = Unit
WidthMet (some required) got = (0 < got) × (required ≤ got)

-- The device's recorded facts meet every requirement of the assignment.
pub record Compatible (discovery : DeviceDiscoverySnapshot) (a : DeviceAssignment) : Type 0 where
  pub facts : DeviceDiscoveryEntry
  pub recorded : find_entry a.device discovery ≡ some facts
  pub capability :
      CapabilityMet a.required_capabilities.min_compute_capability
        (entry_backend facts)
        facts.capabilities.compute_capability
  pub dtypes :
      All
        (λ (name : Str).
          dtype_supported a.required_capabilities.required_dtypes name ≡ true
          → dtype_supported facts.capabilities.dtype_surface name ≡ true)
        dtype_names
  pub sm_count :
      CountMet a.required_capabilities.min_sm_count
        (entry_backend facts)
        facts.capabilities.sm_count
  pub threads :
      Within a.required_capabilities.threads_per_workgroup
        facts.capabilities.max_threads_per_workgroup
  pub shared_memory :
      Within a.required_capabilities.workgroup_shared_memory_bytes
        facts.capabilities.workgroup_shared_memory_max_bytes
  pub width :
      WidthMet a.required_capabilities.min_collective_width facts.capabilities.collective_width
  pub unified :
      a.required_capabilities.require_unified_memory ≡ true
      → facts.capabilities.unified_memory ≡ true

capability_met :
    (required : Option ComputeCapability) (backend : DeviceBackend) (got : ComputeCapability)
    → capability_facts required backend got ≡ []
    → CapabilityMet required backend got
capability_met none backend got h = tt
capability_met (some r) cuda got h = (refl, ground arith)
capability_met (some r) metal got h = absurd (ground arith)

count_met :
    (required : Option ℕ) (backend : DeviceBackend) (got : ℕ)
    → sm_count_facts required backend got ≡ []
    → CountMet required backend got
count_met none backend got h = tt
count_met (some r) cuda got h = (refl, (ground arith, ground arith))
count_met (some r) metal got h = absurd (ground arith)

ceiling-Within :
    (n : Option ℕ) (limit : ℕ) (field : Str) (x : ℕ → ℕ → Fact)
    → ceiling_facts n limit field x ≡ []
    → Within n limit
ceiling-Within none limit field x h = tt
ceiling-Within (some n) limit field x h = (ground arith, ground arith)

floor_met :
    (n : Option ℕ) (got : ℕ) (field : Str) (x : ℕ → ℕ → Fact)
    → floor_facts n got field x ≡ []
    → WidthMet n got
floor_met none got field x h = tt
floor_met (some n) got field x h = (ground arith, ground arith)

dtypes_met :
    (device : PhysicalDeviceId) (required surface : DtypeSurface) (names : List Str)
    → dtype_facts device required surface names ≡ []
    → All
        (λ (name : Str). dtype_supported required name ≡ true → dtype_supported surface name ≡ true)
        names
dtypes_met device required surface [] h = tt
dtypes_met device required surface (name ∷ names) h =
    (λ r. ground (arith, r), dtypes_met device required surface names (ground arith))

unified_met :
    (device : PhysicalDeviceId) (required got : Bool) (fact : Fact)
    → (if required && not got then fact ∷ [] else []) ≡ []
    → required ≡ true
    → got ≡ true
unified_met device required got fact h r = ground arith

no_facts : (device : PhysicalDeviceId) (fs : List Fact) → compat_violations device fs ≡ [] → fs ≡ []
no_facts device [] h = refl
no_facts device (f ∷ fs) h = absurd (ground arith)

entry_facts-Compatible :
    (discovery : DeviceDiscoverySnapshot) (a : DeviceAssignment) (e : Option DeviceDiscoveryEntry)
    → find_entry a.device discovery ≡ e
    → entry_facts a.device a.required_capabilities e ≡ []
    → Compatible discovery a
unfolding gate_generic_launch_resources
entry_facts-Compatible discovery a none f h = absurd (ground arith)
entry_facts-Compatible discovery a (some e) f h =
    let (c, h1) = append_nil_both _ _ h in
    let (d, h2) = append_nil_both _ _ h1 in
    let (s, h3) = append_nil_both _ _ h2 in
    let (t, h4) = append_nil_both _ _ h3 in
    let (m, h5) = append_nil_both _ _ h4 in
    let (w, u) = append_nil_both _ _ h5 in
    record {
      facts = e;
      recorded = f;
      capability = capability_met _ _ _ c;
      dtypes = dtypes_met a.device _ _ dtype_names d;
      sm_count = count_met _ _ _ s;
      threads = ceiling-Within _ _ _ _ t;
      shared_memory = ceiling-Within _ _ _ _ m;
      width = floor_met _ _ _ _ w;
      unified = unified_met a.device _ _ _ u;
    }

assignments-Compatible :
    (discovery : DeviceDiscoverySnapshot) (as' : List DeviceAssignment)
    → assignments_violations discovery as' ≡ []
    → All (Compatible discovery) as'
assignments-Compatible discovery [] h = tt
assignments-Compatible discovery (a ∷ as') h =
    let (f, r) = append_nil_both _ _ h in
    (
      entry_facts-Compatible discovery a (find_entry a.device discovery) refl
          (no_facts a.device _ f),
      assignments-Compatible discovery as' r,
    )

pub gate_compatibility-Compatible :
    (discovery : DeviceDiscoverySnapshot) (p : CandidatePlan)
    → gate_compatibility p discovery ≡ []
    → All (Compatible discovery) p.assignments
unfolding gate_compatibility
gate_compatibility-Compatible discovery p h = assignments-Compatible discovery p.assignments h
