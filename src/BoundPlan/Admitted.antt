-- ===== src/BoundPlan/Admitted.antt =====
-- What admission guarantees (crates/host-coordinator/src/bound_plan.rs, `AdmittedLogicalPlan::admit`).
use mathlib.Core.Path.{subst}
use hosts.Base.{
  true, false, List, [], ◌∷◌, none, Str, ok, All, ◌≡◌, ◌≢◌, arith, inl, inr, Bool-cases,
  Option-cases,
}
use hosts.Base.Order.{str_ord}
use hosts.Base.Collections.{collect, contains}
use hosts.Identity.Device.{device_ord}
use hosts.BoundPlan.{LogicalPartitionId}
use hosts.BoundPlan.Admit.{
  DeclaredPlacementConstraint, distinct_physical_devices, colocated, required_backend,
  AdmittedLogicalPlan, is_sha256_hex, find_undeclared, constraint_unknown_partition, first_unknown,
  is_empty_set, admit_known, admit,
}

-- Every partition that the constraint names is declared.
abbrev pub References : List LogicalPartitionId → DeclaredPlacementConstraint → Type 0
References declared distinct_physical_devices = Unit
References declared (colocated ps) = All (λ (p : LogicalPartitionId). contains p declared ≡ true) ps
References declared (required_backend ps b) =
    All (λ (p : LogicalPartitionId). contains p declared ≡ true) ps

-- What an admitted plan says of its inputs.
pub record Admits (hash : Str) (ps : List LogicalPartitionId)
    (cs : List DeclaredPlacementConstraint) (plan : AdmittedLogicalPlan) : Type 0 where
  pub hash_spelled : is_sha256_hex hash ≡ true
  pub same_hash : plan.logical_distributed_plan_hash ≡ hash
  pub same_partitions : plan.declared_partitions ≡ collect ps
  pub some_partition : plan.declared_partitions ≢ []
  pub same_constraints : plan.declared_constraints ≡ cs
  pub referenced : All (References plan.declared_partitions) cs
  pub undemanding :
      (plan.launch_resource_demand.threads_per_workgroup ≡ none)
      × (plan.launch_resource_demand.workgroup_shared_memory_bytes ≡ none)

undeclared_none :
    (ps declared : List LogicalPartitionId)
    → find_undeclared ps declared ≡ none
    → All (λ (p : LogicalPartitionId). contains p declared ≡ true) ps
undeclared_none [] declared h = tt
undeclared_none (p ∷ ps) declared h = (ground arith, undeclared_none ps declared (ground arith))

references :
    (c : DeclaredPlacementConstraint) (declared : List LogicalPartitionId)
    → constraint_unknown_partition c declared ≡ none
    → References declared c
unfolding constraint_unknown_partition
references distinct_physical_devices declared h = tt
references (colocated ps) declared h = undeclared_none ps declared h
references (required_backend ps b) declared h = undeclared_none ps declared h

none_unknown :
    (cs : List DeclaredPlacementConstraint) (declared : List LogicalPartitionId)
    → first_unknown cs declared ≡ none
    → All (References declared) cs
none_unknown [] declared h = tt
none_unknown (c ∷ cs) declared h = elim (Option-cases (constraint_unknown_partition c declared)) [
  | inl e ↦ (references c declared e, none_unknown cs declared (ground (arith, e)))
  | inr (p, e) ↦ absurd (ground (arith, e))
]

not_empty : (ps : List LogicalPartitionId) → is_empty_set ps ≡ false → ps ≢ []
not_empty [] h e = absurd (ground arith)
not_empty (p ∷ ps) h e = absurd (ground arith)

-- An admitted plan carries the given hash, which is spelled as a SHA-256, the set of the given
-- partitions, which is not empty, and the given constraints, which name only those partitions. It
-- makes no launch demand.
pub admit-Admits :
    (hash : Str) (ps : List LogicalPartitionId) (cs : List DeclaredPlacementConstraint)
    (plan : AdmittedLogicalPlan)
    → admit hash ps cs ≡ ok plan
    → Admits hash ps cs plan
unfolding admit
admit-Admits hash ps cs plan h = elim (Bool-cases (is_sha256_hex hash)) [
  | inr e ↦ absurd (ground (arith, e))
  | inl e ↦ elim (Bool-cases (is_empty_set (collect ps))) [
    | inl f ↦ absurd (ground (arith, e, f))
    | inr f ↦ elim (Option-cases (first_unknown cs (collect ps))) [
      | inr (p, g) ↦ absurd (ground (arith, e, f, g))
      | inl g ↦
          let r : admit_known hash (collect ps) cs none ≡ ok plan = ground (arith, e, f, g) in
          record {
            hash_spelled = e;
            same_hash = ground arith;
            same_partitions = ground arith;
            some_partition = λ x. not_empty (collect ps) f (ground arith);
            same_constraints = ground arith;
            referenced =
                subst (λ (d : List LogicalPartitionId). All (References d) cs) (ground arith)
                  (none_unknown cs (collect ps) g);
            undemanding = (ground arith, ground arith);
          }
    ]
  ]
]
