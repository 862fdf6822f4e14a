-- ===== src/Scenarios/Plans.antt =====
-- The theorems of admission and binding at a plan of two partitions.
use hosts.Base.{true, List, [], ◌∷◌, none, some, Str, bytes, ok, err, panicked, ◌≡◌, ◌≢◌, refl}
use hosts.Base.Order.{str_ord}
use hosts.Identity.Device.{device_ord, metal}
use hosts.Partition.Receipt.{synthetic, host_staged}
use hosts.Discovery.Sha256.{digest}
use hosts.Discovery.Snapshot.{snapshot_of}
use hosts.Discovery.DigestBytes.{digest-Bytes}
use hosts.BoundPlan.{BoundDistributedPlan, distributed}
use hosts.BoundPlan.Admit.{
  DeclaredPlacementConstraint, colocated, required_backend, LaunchResourceDemand,
  AdmittedLogicalPlan, admit, with_launch_resource_demand, is_sha256_hex,
}
use hosts.BoundPlan.Bind.{bind, hashed, unhashed}
use hosts.BoundPlan.Bound.{BoundWell, bind-BoundWell}
use hosts.BoundPlan.Admitted.{Admits, admit-Admits}
use hosts.BoundPlan.Bindable.{bind_never_panics}
use hosts.BoundPlan.Hash.{hashed-is_sha256_hex}
use hosts.Scenarios.World.{device, alpha, beta, bindings, plan}
use hosts.Scenarios.Devices.{snapshot}

abbrev hash : Str
hash = bytes "sha256:0123456789abcdef0123456789abcdef0123456789abcdef0123456789abcdef"

abbrev constraints : List DeclaredPlacementConstraint
constraints = colocated (alpha ∷ beta ∷ []) ∷ required_backend (beta ∷ []) metal ∷ []

abbrev logical : AdmittedLogicalPlan
logical = record {
  logical_distributed_plan_hash = hash;
  declared_partitions = alpha ∷ beta ∷ [];
  declared_constraints = constraints;
  launch_resource_demand = record {
    threads_per_workgroup = none;
    workgroup_shared_memory_bytes = none;
  };
}

logical_admitted : admit hash (beta ∷ alpha ∷ []) constraints ≡ ok logical
unfolding admit str_ord
logical_admitted = refl

admit-Admits_example : Admits hash (beta ∷ alpha ∷ []) constraints logical
admit-Admits_example = admit-Admits hash (beta ∷ alpha ∷ []) constraints logical logical_admitted

abbrev demand : LaunchResourceDemand
demand = record { threads_per_workgroup = some 256; workgroup_shared_memory_bytes = some 1024 }

abbrev asking : AdmittedLogicalPlan
asking = record logical { launch_resource_demand = demand }

abbrev bound : BoundDistributedPlan
bound =
    hashed digest
      (unhashed asking (device ∷ []) snapshot synthetic host_staged (distributed bindings))

asking_bound : bind digest asking bindings (device ∷ []) snapshot 1 synthetic host_staged ≡ ok bound
unfolding bind snapshot_of device_ord str_ord
asking_bound = refl

bind-BoundWell_example :
    BoundWell digest asking bindings (device ∷ []) snapshot 1 synthetic host_staged bound
bind-BoundWell_example =
    bind-BoundWell asking bindings (device ∷ []) snapshot 1 digest synthetic host_staged bound
      asking_bound

bind_never_panics_example :
    bind digest
      (with_launch_resource_demand demand logical)
      bindings
      (device ∷ [])
      snapshot
      1
      synthetic
      host_staged
    ≢ err panicked
bind_never_panics_example =
    bind_never_panics hash (beta ∷ alpha ∷ []) constraints logical demand digest bindings
      (device ∷ []) snapshot 1 synthetic host_staged logical_admitted

hashed-is_sha256_hex_example :
    (is_sha256_hex (hashed digest plan).bound_distributed_plan_hash ≡ true)
    × (is_sha256_hex (hashed digest plan).bound_distributed_plan_hash ≡ true)
hashed-is_sha256_hex_example = hashed-is_sha256_hex digest plan digest-Bytes
