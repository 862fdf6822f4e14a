-- ===== src/BoundPlan.antt =====
-- crates/host-coordinator/src/bound_plan.rs: the topology-bound plan that a transaction executes.
pub mod Admit
pub mod Bind
pub mod Constraints
pub mod Bound
pub mod Hash
pub mod Admitted
pub mod Bindable
use hosts.Base.{ℕ, Bool, true, false, List, [], ◌∷◌, ◌++◌, Option, none, some, Str}
use hosts.Base.Order.{nat_ord, str_ord}
use hosts.Base.Collections.{collect}
use hosts.Identity.Device.{PhysicalDeviceId, device_ord, device_bytes}
use hosts.Identity.Bytes.{push_u64, push_str, push_list}
use hosts.Partition.{VirtualDevicePartition}
use hosts.Partition.Receipt.{
  FixtureIdentityClass, TransportClass, PartitionReceipt, new_receipt, fixture_tag, transport_tag,
}

-- A logical partition id is its string.
abbrev pub LogicalPartitionId : Type 0
LogicalPartitionId = Str

pub record PartitionBinding : Type 0 where
  pub device : PhysicalDeviceId
  pub virtual_partition : Option VirtualDevicePartition

abbrev pub Bindings : Type 0
Bindings = List (LogicalPartitionId × PartitionBinding)

pub data BoundPlanKind : Type 0 where
  implicit_local : PhysicalDeviceId → Option VirtualDevicePartition → BoundPlanKind
  distributed : Bindings → BoundPlanKind

-- `snapshot_id` is the 32 bytes of a digest; `device_set` its members in ascending order.
pub record BoundDistributedPlan : Type 0 where
  pub logical_distributed_plan_hash : Str
  pub kind : BoundPlanKind
  pub device_set : List PhysicalDeviceId
  pub snapshot_id : List ℕ
  pub fixture_identity_class : FixtureIdentityClass
  pub transport_class : TransportClass
  pub bound_distributed_plan_hash : Str

abbrev kind_is_degenerate : BoundPlanKind → Bool
kind_is_degenerate (implicit_local device partition) = true
kind_is_degenerate (distributed bindings) = false

unfoldable pub is_degenerate : BoundDistributedPlan → Bool
is_degenerate plan = kind_is_degenerate plan.kind

abbrev kind_bindings : BoundPlanKind → Option Bindings
kind_bindings (distributed bindings) = some bindings
kind_bindings (implicit_local device partition) = none

unfoldable pub bindings_of : BoundDistributedPlan → Option Bindings
bindings_of plan = kind_bindings plan.kind

abbrev option_ids : Option VirtualDevicePartition → List ℕ
option_ids none = []
option_ids (some p) = p.id ∷ []

abbrev pub bound_devices : Bindings → List PhysicalDeviceId
bound_devices [] = []
bound_devices ((id, b) ∷ bs) = b.device ∷ bound_devices bs

abbrev bound_ids : Bindings → List ℕ
bound_ids [] = []
bound_ids ((id, b) ∷ bs) = option_ids b.virtual_partition ++ bound_ids bs

abbrev kind_receipt : BoundPlanKind → FixtureIdentityClass → TransportClass → PartitionReceipt
kind_receipt (implicit_local device partition) =
    new_receipt (collect (device ∷ [])) (collect (option_ids partition))
kind_receipt (distributed bindings) =
    new_receipt (collect (bound_devices bindings)) (collect (bound_ids bindings))

unfoldable pub plan_receipt : BoundDistributedPlan → PartitionReceipt
unfolding new_receipt collect
plan_receipt plan = kind_receipt plan.kind plan.fixture_identity_class plan.transport_class

abbrev option_bytes : Option VirtualDevicePartition → List ℕ
option_bytes (some p) = 1 ∷ push_u64 p.id
option_bytes none = 0 ∷ []

abbrev binding_bytes : LogicalPartitionId × PartitionBinding → List ℕ
binding_bytes (id, b) = push_str id ++ (device_bytes b.device ++ option_bytes b.virtual_partition)

abbrev kind_bytes : BoundPlanKind → List ℕ
kind_bytes (implicit_local device partition) = 0 ∷ (device_bytes device ++ option_bytes partition)
kind_bytes (distributed bindings) = 1 ∷ push_list binding_bytes bindings

unfoldable pub plan_bytes : BoundDistributedPlan → List ℕ
unfolding push_str push_u64 push_list device_bytes fixture_tag transport_tag
plan_bytes plan =
    push_str plan.logical_distributed_plan_hash
    ++ (kind_bytes plan.kind
        ++ (push_list device_bytes plan.device_set
            ++ (plan.snapshot_id
                ++ (push_u64 (fixture_tag plan.fixture_identity_class)
                    ++ push_u64 (transport_tag plan.transport_class)))))
