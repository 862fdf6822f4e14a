-- ===== src/DeviceSet/Constraints.antt =====
-- What a resolved constraint selects (crates/host-coordinator/src/device_set.rs,
-- `DeviceSetSelection::resolve`).
use hosts.Base.{
  ℕ, ◌≤◌, Bool, true, false, List, [], ◌∷◌, Option, none, some, ok, length, Member, ltb,
  ltb_false→le, if◌then◌else◌, ◌≡◌, ◌↔◌, refl, sym, ap, ◌∙◌, arith, inl, inr, Bool-cases,
}
use mathlib.Core.Path.{subst}
use hosts.Base.Order.{nat_ord}
use hosts.Base.Collections.{
  contains, contains-Member, Member-contains, contains-extend, collect, values,
}
use hosts.Identity.Device.{DeviceBackend, metal, cuda, PhysicalDeviceId, backend, device_ord}
use hosts.Identity.Health.{is_stale}
use hosts.Discovery.Snapshot.{DeviceDiscoveryEntry, Devices, DeviceDiscoverySnapshot}
use hosts.DeviceSet.{
  DeviceSet, from_members, DeviceSetConstraints, constraints, same_backend, meets_backend,
  selectable, select, within_maximum, within_bounds, resolve,
}

abbrev pub MeetsBackend : Option DeviceBackend → PhysicalDeviceId → Type 0
MeetsBackend none id = Unit
MeetsBackend (some b) id = backend id ≡ b

-- An entry of the snapshot for the id that the constraints let through.
pub record Selects (c : DeviceSetConstraints) (current : ℕ) (ds : Devices) (id : PhysicalDeviceId)
    : Type 0 where
  pub chosen : DeviceDiscoveryEntry
  pub listed : Member chosen (values ds)
  pub identity : chosen.identity ≡ id
  pub generation : chosen.health_generation ≡ current
  pub meets : MeetsBackend c.backend id
  pub allowed : contains id c.exclude ≡ false

pub same_backend_eq : (a b : DeviceBackend) → same_backend a b ≡ true → a ≡ b
same_backend_eq a b h = ground arith

same_backend_self : (a : DeviceBackend) → same_backend a a ≡ true
same_backend_self metal = refl
same_backend_self cuda = refl

meets-MeetsBackend :
    (b : Option DeviceBackend) (id : PhysicalDeviceId)
    → meets_backend b id ≡ true
    → MeetsBackend b id
meets-MeetsBackend none id h = tt
meets-MeetsBackend (some b) id h = same_backend_eq (backend id) b h

MeetsBackend-meets :
    (b : Option DeviceBackend) (id : PhysicalDeviceId)
    → MeetsBackend b id
    → meets_backend b id ≡ true
MeetsBackend-meets none id h = refl
MeetsBackend-meets (some b) id h = rw h (same_backend_self b)

module _ (c : DeviceSetConstraints) (current : ℕ) where
  record Passes (e : DeviceDiscoveryEntry) : Type 0 where
    pub generation : e.health_generation ≡ current
    pub meets : MeetsBackend c.backend e.identity
    pub allowed : contains e.identity c.exclude ≡ false

  selectable-Passes : (e : DeviceDiscoveryEntry) → selectable c current e ≡ true → Passes e
  unfolding selectable is_stale
  selectable-Passes e h = record {
    generation = ground arith;
    meets = meets-MeetsBackend c.backend e.identity (ground arith);
    allowed = ground arith;
  }

  Passes-selectable : (e : DeviceDiscoveryEntry) → Passes e → selectable c current e ≡ true
  unfolding selectable is_stale
  Passes-selectable e p =
      ground (arith, MeetsBackend-meets c.backend e.identity p.meets, p.generation, p.allowed)

  later :
      (k : ℕ) (e : DeviceDiscoveryEntry) (ds : Devices) (id : PhysicalDeviceId)
      → Selects c current ds id
      → Selects c current ((k, e) ∷ ds) id
  later k e ds id s = record {
    chosen = s.chosen;
    listed = inr s.listed;
    identity = s.identity;
    generation = s.generation;
    meets = s.meets;
    allowed = s.allowed;
  }

  here :
      (k : ℕ) (e : DeviceDiscoveryEntry) (ds : Devices) (id : PhysicalDeviceId)
      → e.identity ≡ id
      → Passes e
      → Selects c current ((k, e) ∷ ds) id
  here k e ds id i p = record {
    chosen = e;
    listed = inl refl;
    identity = i;
    generation = p.generation;
    meets = subst (MeetsBackend c.backend) i p.meets;
    allowed = subst (λ (j : PhysicalDeviceId). contains j c.exclude ≡ false) i p.allowed;
  }

  select-Selects :
      (ds : Devices) (id : PhysicalDeviceId)
      → Member id (select c current ds)
      → Selects c current ds id
  unfolding select
  select-Selects [] id m = absurd m
  select-Selects ((k, e) ∷ ds) id m = elim (Bool-cases (selectable c current e)) [
    | inl s ↦
        elim (subst
          (λ (b : Bool).
            Member id (if b then e.identity ∷ select c current ds else select c current ds))
          s m) [
            | inl i ↦ here k e ds id i (selectable-Passes e s)
            | inr n ↦ later k e ds id (select-Selects ds id n)
          ]
    | inr s ↦ later k e ds id (
        select-Selects ds id (
          subst
            (λ (b : Bool).
              Member id (if b then e.identity ∷ select c current ds else select c current ds))
            s m))
  ]

  Selects-select :
      (ds : Devices) (id : PhysicalDeviceId) (e : DeviceDiscoveryEntry)
      → Member e (values ds)
      → e.identity ≡ id
      → Passes e
      → Member id (select c current ds)
  unfolding select
  Selects-select [] id e m i p = absurd m
  Selects-select ((k, d) ∷ ds) id e (inl q) i p = rw (q, Passes-selectable e p) (inl i)
  Selects-select ((k, d) ∷ ds) id e (inr m) i p = elim (Bool-cases (selectable c current d)) [
    | inl s ↦ rw s (inr (Selects-select ds id e m i p))
    | inr s ↦ rw s (Selects-select ds id e m i p)
  ]

abbrev pub AtMost : Option ℕ → ℕ → Type 0
AtMost none n = Unit
AtMost (some max) n = n ≤ max

maximum_lem :
    (max : Option ℕ) (s set : DeviceSet)
    → within_maximum max s ≡ ok set
    → (s ≡ set) × AtMost max (length set)
maximum_lem none s set h = (ground arith, tt)
maximum_lem (some max) s set h = elim (Bool-cases (ltb max (length s))) [
  | inl e ↦ absurd (ground arith)
  | inr e ↦
      let q : s ≡ set = ground arith in
      (q, omega (arith, ltb_false→le max (length s) e, ap (length {A = PhysicalDeviceId}) q))
]

bounds_lem :
    (c : DeviceSetConstraints) (s set : DeviceSet)
    → within_bounds c s ≡ ok set
    → (s ≡ set) × (c.min_count ≤ length set) × AtMost c.max_count (length set)
bounds_lem c s set h = elim (Bool-cases (ltb (length s) c.min_count)) [
  | inl e ↦ absurd (ground arith)
  | inr e ↦
      let (q, m) = maximum_lem c.max_count s set (ground (arith, e)) in
      (
        q,
        omega (arith, ltb_false→le (length s) c.min_count e, ap (length {A = PhysicalDeviceId}) q),
        m,
      )
]

contains-from_members :
    (id : PhysicalDeviceId) (ids : List PhysicalDeviceId)
    → contains id (from_members ids) ≡ contains id ids
unfolding from_members collect contains
contains-from_members id ids = ground (arith, contains-extend id [] ids)

-- A resolved constraint selects exactly the devices that some entry of the snapshot records under
-- the current generation, with the required backend and not excluded. Their number is within the
-- declared bounds.
pub resolve-Selects :
    (c : DeviceSetConstraints) (discovery : DeviceDiscoverySnapshot) (current : ℕ) (set : DeviceSet)
    → resolve (constraints c) discovery current ≡ ok set
    → ((id : PhysicalDeviceId) → (contains id set ≡ true) ↔ Selects c current discovery.devices id)
      × ((c.min_count ≤ length set) × AtMost c.max_count (length set))
unfolding resolve
resolve-Selects c discovery current set h =
    let ds = discovery.devices in
    let (q, low, high) = bounds_lem c (from_members (select c current ds)) set h in
    let e : (id : PhysicalDeviceId) → contains id set ≡ contains id (select c current ds) =
      λ id. ap (contains id) (sym q) ∙ contains-from_members id (select c current ds) in
    (
      λ id. (
        λ m.
            select-Selects c current ds id
              (Member-contains id (select c current ds) (sym (e id) ∙ m)),
        λ s.
            e id
            ∙ contains-Member id (select c current ds) (
                Selects-select c current ds id s.chosen s.listed s.identity (record {
                  generation = s.generation;
                  meets = subst (MeetsBackend c.backend) (sym s.identity) s.meets;
                  allowed =
                      subst (λ (j : PhysicalDeviceId). contains j c.exclude ≡ false)
                        (sym s.identity) s.allowed;
                })),
      ),
      (low, high),
    )
