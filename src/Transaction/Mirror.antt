-- ===== src/Transaction/Mirror.antt =====
-- crates/host-coordinator/src/execution_transaction/mirror.rs: the operations of an accepted plan. A
-- reference newtype is its string, and a `BTreeSet` its ascending list.
use hosts.Base.{ℕ, List, Str, ◌≡◌, arith}
use hosts.Base.Order.{Ord, nat_ord, str_ord, pair_ord, key_ord}
use hosts.Base.Collections.{collect}
use hosts.BoundPlan.{LogicalPartitionId}

abbrev pub LaunchRef : Type 0
LaunchRef = Str

abbrev pub TransferRef : Type 0
TransferRef = Str

abbrev pub CollectiveRef : Type 0
CollectiveRef = Str

abbrev pub BarrierRef : Type 0
BarrierRef = Str

abbrev pub OutputRef : Type 0
OutputRef = Str

pub data TransferDirectionMirror : Type 0 where
  h2d d2h bidi : TransferDirectionMirror

unfoldable pub direction_tag : TransferDirectionMirror → ℕ
direction_tag h2d = 0
direction_tag d2h = 1
direction_tag bidi = 2

pub data MirroredDtype : Type 0 where
  f32 f64 f16 bf16 i8 i32 : MirroredDtype

unfoldable pub dtype_tag : MirroredDtype → ℕ
dtype_tag f32 = 0
dtype_tag f64 = 1
dtype_tag f16 = 2
dtype_tag bf16 = 3
dtype_tag i8 = 4
dtype_tag i32 = 5

pub data MirroredStorageLayout : Type 0 where
  dense block_packed : MirroredStorageLayout

unfoldable pub layout_tag : MirroredStorageLayout → ℕ
layout_tag dense = 0
layout_tag block_packed = 1

pub data TransportPathMirror : Type 0 where
  host_staged : TransportPathMirror

unfoldable pub path_tag : TransportPathMirror → ℕ
path_tag host_staged = 0

pub record TransactionCommitBoundary : Type 0 where
  pub barriers : List BarrierRef
  pub launches : List LaunchRef

unfoldable pub new_boundary : List BarrierRef → List LaunchRef → TransactionCommitBoundary
unfolding collect
new_boundary barriers launches = record { barriers = collect barriers; launches = collect launches }

pub record TransferOperationMirror : Type 0 where
  pub id : TransferRef
  pub source : LogicalPartitionId
  pub destination : LogicalPartitionId
  pub byte_count : ℕ
  pub direction : TransferDirectionMirror
  pub element_dtype : MirroredDtype
  pub layout : MirroredStorageLayout
  pub path_label : TransportPathMirror
  pub producer_generation : ℕ
  pub consumer_generation : ℕ
  pub completion_boundary : TransactionCommitBoundary

-- The release build leaves out the constructor's `debug_assert!` that the source participates.
pub record CollectiveBroadcastMirror : Type 0 where
  pub id : CollectiveRef
  pub source : LogicalPartitionId
  pub participants : List LogicalPartitionId
  pub byte_count : ℕ

pub data OperationRef : Type 0 where
  launch_of : LaunchRef → OperationRef
  transfer_of : TransferRef → OperationRef
  collective_of : CollectiveRef → OperationRef
  barrier_of : BarrierRef → OperationRef

pub data BoundaryRef : Type 0 where
  boundary_barrier : BarrierRef → BoundaryRef
  boundary_launch : LaunchRef → BoundaryRef

pub record StagedWrite : Type 0 where
  pub partition : LogicalPartitionId
  pub output_ref : OutputRef
  pub byte_count : ℕ

pub data TransactionOperation : Type 0 where
  launch : LogicalPartitionId → LaunchRef → ℕ → TransactionOperation
  transfer : TransferOperationMirror → TransactionOperation
  broadcast : CollectiveBroadcastMirror → TransactionOperation
  barrier : BarrierRef → List LogicalPartitionId → TransactionOperation

pub data OperationEvent : Type 0 where
  launch_completed : LogicalPartitionId → LaunchRef → OperationEvent
  transfer_completed : LogicalPartitionId → TransferRef → OperationEvent
  broadcast_completed : LogicalPartitionId → CollectiveRef → OperationEvent
  barrier_completed : LogicalPartitionId → BarrierRef → OperationEvent

-- The derived orders: the variant's index, then the fields.
abbrev ref_key : OperationRef → ℕ × Str
ref_key (launch_of r) = (0, r)
ref_key (transfer_of r) = (1, r)
ref_key (collective_of r) = (2, r)
ref_key (barrier_of r) = (3, r)

pub ref_key_injective : (a b : OperationRef) → ref_key a ≡ ref_key b → a ≡ b
ref_key_injective a b h = ground arith

instance unfoldable pub operation_ref_ord : Ord OperationRef
unfolding key_ord pair_ord str_ord
operation_ref_ord = key_ord ref_key ref_key_injective (pair_ord nat_ord str_ord)

abbrev boundary_key : BoundaryRef → ℕ × Str
boundary_key (boundary_barrier r) = (0, r)
boundary_key (boundary_launch r) = (1, r)

pub boundary_key_injective : (a b : BoundaryRef) → boundary_key a ≡ boundary_key b → a ≡ b
boundary_key_injective a b h = ground arith

instance unfoldable pub boundary_ref_ord : Ord BoundaryRef
unfolding key_ord pair_ord str_ord
boundary_ref_ord = key_ord boundary_key boundary_key_injective (pair_ord nat_ord str_ord)

abbrev event_key : OperationEvent → ℕ × (Str × Str)
event_key (launch_completed p r) = (0, (p, r))
event_key (transfer_completed p r) = (1, (p, r))
event_key (broadcast_completed p r) = (2, (p, r))
event_key (barrier_completed p r) = (3, (p, r))

pub event_key_injective : (a b : OperationEvent) → event_key a ≡ event_key b → a ≡ b
event_key_injective a b h = ground arith

instance unfoldable pub event_ord : Ord OperationEvent
unfolding key_ord pair_ord str_ord
event_ord = key_ord event_key event_key_injective (pair_ord nat_ord (pair_ord str_ord str_ord))
