-- ===== src/BoundPlan/Constraints.antt =====
-- What the checks of bindings and of declared constraints in `bind` guarantee
-- (crates/host-coordinator/src/bound_plan.rs).
use hosts.Base.{
  Bool, true, false, List, [], ◌∷◌, Option, none, some, raised, panicked, ok, err, length, All, ◌≡◌,
  refl, arith, inl, inr, Option-cases,
}
use hosts.Base.Order.{Ord, str_ord}
use hosts.Base.Collections.{eq_of_eqb, eqb_self, get, add, collect, contains, contains-add}
use hosts.Identity.Device.{DeviceBackend, PhysicalDeviceId, device_ord, backend}
use hosts.Partition.{VirtualDevicePartition, is_active}
use hosts.DeviceSet.Constraints.{same_backend_eq}
use hosts.BoundPlan.{LogicalPartitionId, PartitionBinding, Bindings, bound_devices}
use hosts.BoundPlan.Admit.{
  DeclaredPlacementConstraint, distinct_physical_devices, colocated, required_backend,
}
use hosts.BoundPlan.Bind.{
  Check, and_then, require, Verdict, as_violation, same_set, check_attachment, check_bindings,
  colocated_devices, at_most_one, check_backends, check_constraint, check_constraints, BindError,
}

pub and_then_ok : (a b : Check) → and_then a b ≡ ok tt → (a ≡ ok tt) × (b ≡ ok tt)
and_then_ok (ok u) b h = (refl, h)
and_then_ok (err e) b h = absurd (ground arith)

pub require_ok : (b : Bool) (e : BindError) → require b e ≡ ok tt → b ≡ true
require_ok true e h = refl
require_ok false e h = absurd (ground arith)

module _ {K : Type 0} ⦃o : Ord K⦄ where
  pub same_set_eq : (xs ys : List K) → same_set xs ys ≡ true → xs ≡ ys
  unfolding same_set
  same_set_eq [] [] h = refl
  same_set_eq [] (y ∷ ys) h = absurd (ground arith)
  same_set_eq (x ∷ xs) [] h = absurd (ground arith)
  same_set_eq (x ∷ xs) (y ∷ ys) h = ground (arith, eq_of_eqb x y, same_set_eq xs ys)

-- An attached partition is active and draws from the bound device.
abbrev pub AttachmentFits : PhysicalDeviceId → Option VirtualDevicePartition → Type 0
AttachmentFits device none = Unit
AttachmentFits device (some p) = (p.bound_device ≡ device) × (is_active p ≡ true)

attachment_fits :
    (id : LogicalPartitionId) (device : PhysicalDeviceId) (p : Option VirtualDevicePartition)
    → check_attachment id device p ≡ ok tt
    → AttachmentFits device p
attachment_fits id device none h = tt
attachment_fits id device (some p) h =
    (ground (arith, eq_of_eqb p.bound_device device), ground arith)

abbrev pub Attached : LogicalPartitionId × PartitionBinding → Type 0
Attached (id, b) = AttachmentFits b.device b.virtual_partition

pub check_bindings-Attached : (bs : Bindings) → check_bindings bs ≡ ok tt → All Attached bs
unfolding check_bindings
check_bindings-Attached [] h = tt
check_bindings-Attached ((id, b) ∷ bs) h =
    let (f, r) = and_then_ok _ _ h in
    (attachment_fits id b.device b.virtual_partition f, check_bindings-Attached bs r)

-- The partition is bound to the device.
pub record BoundTo (bindings : Bindings) (p : LogicalPartitionId) (device : PhysicalDeviceId)
    : Type 0 where
  pub binding : PartitionBinding
  pub found : get p bindings ≡ some binding
  pub on : binding.device ≡ device

-- The partition is bound to a device of the backend.
pub record BoundOn (bindings : Bindings) (required : DeviceBackend) (p : LogicalPartitionId)
    : Type 0 where
  pub binding : PartitionBinding
  pub found : get p bindings ≡ some binding
  pub on : backend binding.device ≡ required

-- What each declared constraint asks of the bindings.
abbrev pub Satisfied : Bindings → DeclaredPlacementConstraint → Type 0
Satisfied bindings distinct_physical_devices =
    length (collect (bound_devices bindings)) ≡ length bindings
Satisfied bindings (colocated []) = Unit
Satisfied bindings (colocated (p ∷ ps)) =
    (device : PhysicalDeviceId) × All (λ (q : LogicalPartitionId). BoundTo bindings q device)
      (p ∷ ps)
Satisfied bindings (required_backend ps b) = All (BoundOn bindings b) ps

module _ (bindings : Bindings) where
  backends_from :
      (ps : List LogicalPartitionId) (required : DeviceBackend)
      → check_backends bindings ps required ≡ ok tt
      → All (BoundOn bindings required) ps
  unfolding check_backends
  backends_from [] required h = tt
  backends_from (p ∷ ps) required h = elim (Option-cases (get p bindings)) [
    | inl e ↦ absurd (ground (arith, e))
    | inr (b, e) ↦ (
      record {
        binding = b;
        found = e;
        on = same_backend_eq (backend b.device) required (ground (arith, e));
      },
      backends_from ps required (ground (arith, e)),
    )
  ]

  -- Every device met on the way is in the set at the end.
  kept :
      (ps : List LogicalPartitionId) (s t : List PhysicalDeviceId) (d : PhysicalDeviceId)
      → colocated_devices bindings ps s ≡ some t
      → contains d s ≡ true
      → contains d t ≡ true
  unfolding colocated_devices
  kept [] s t d h m = ground arith
  kept (p ∷ ps) s t d h m = elim (Option-cases (get p bindings)) [
    | inl e ↦ absurd (ground (arith, e))
    | inr (b, e) ↦
        kept ps (add b.device s) t d (ground (arith, e)) (ground (arith, contains-add d b.device s))
  ]

  colocated_from :
      (ps : List LogicalPartitionId) (s t : List PhysicalDeviceId) (device : PhysicalDeviceId)
      → colocated_devices bindings ps s ≡ some t
      → ((d : PhysicalDeviceId) → contains d t ≡ true → d ≡ device)
      → All (λ (q : LogicalPartitionId). BoundTo bindings q device) ps
  unfolding colocated_devices
  colocated_from [] s t device h u = tt
  colocated_from (p ∷ ps) s t device h u = elim (Option-cases (get p bindings)) [
    | inl e ↦ absurd (ground (arith, e))
    | inr (b, e) ↦
        let r : colocated_devices bindings ps (add b.device s) ≡ some t = ground (arith, e) in
        let m =
          kept ps (add b.device s) t b.device r
            (ground (arith, contains-add b.device b.device s, eqb_self b.device)) in
        (
          record { binding = b; found = e; on = u b.device m },
          colocated_from ps (add b.device s) t device r u,
        )
  ]

  at_most_one_lem :
      (t : List PhysicalDeviceId) (d0 : PhysicalDeviceId)
      → at_most_one (some t) ≡ ok tt
      → contains d0 t ≡ true
      → (d : PhysicalDeviceId) → contains d t ≡ true
      → d ≡ d0
  unfolding contains
  at_most_one_lem [] d0 h m d n = absurd (ground arith)
  at_most_one_lem (x ∷ []) d0 h m d n = ground (arith, eq_of_eqb d x, eq_of_eqb d0 x)
  at_most_one_lem (x ∷ y ∷ t) d0 h m d n = absurd (ground arith)

  colocated_lem :
      (ps : List LogicalPartitionId) (t : Option (List PhysicalDeviceId))
      → colocated_devices bindings ps [] ≡ t
      → at_most_one t ≡ ok tt
      → Satisfied bindings (colocated ps)
  unfolding colocated_devices
  colocated_lem [] t e h = tt
  colocated_lem (p ∷ ps) none e h = absurd (ground arith)
  colocated_lem (p ∷ ps) (some t) e h = elim (Option-cases (get p bindings)) [
    | inl n ↦ absurd (ground (arith, n))
    | inr (b, n) ↦
        let r : colocated_devices bindings ps (add b.device []) ≡ some t = ground (arith, n) in
        let m =
          kept ps (add b.device []) t b.device r
            (ground (arith, contains-add b.device b.device [], eqb_self b.device)) in
        (b.device, colocated_from (p ∷ ps) [] t b.device e (at_most_one_lem t b.device h m))
  ]

  constraint_lem :
      (c : DeclaredPlacementConstraint) → check_constraint bindings c ≡ ok tt → Satisfied bindings c
  unfolding check_constraint
  constraint_lem distinct_physical_devices h = ground arith
  constraint_lem (colocated ps) h = colocated_lem ps (colocated_devices bindings ps []) refl h
  constraint_lem (required_backend ps b) h = backends_from ps b h

  violation_ok :
      (c : DeclaredPlacementConstraint) (v : Verdict) → as_violation c v ≡ ok tt → v ≡ ok tt
  violation_ok c (ok u) h = refl
  violation_ok c (err panicked) h = absurd (ground arith)
  violation_ok c (err (raised d)) h = absurd (ground arith)

  pub check_constraints-Satisfied :
      (cs : List DeclaredPlacementConstraint)
      → check_constraints bindings cs ≡ ok tt
      → All (Satisfied bindings) cs
  unfolding check_constraints
  check_constraints-Satisfied [] h = tt
  check_constraints-Satisfied (c ∷ cs) h =
      let (f, r) = and_then_ok _ _ h in
      (constraint_lem c (violation_ok c _ f), check_constraints-Satisfied cs r)
