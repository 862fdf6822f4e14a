-- ===== src/Transport/Spec.antt =====
-- The declared and the actual facts of a transfer, and the validation before the copy
-- (crates/host-coordinator/src/transport.rs).
use hosts.Base.{
  ℕ, ◌+◌, ◌-◌, List, Option, none, some, Str, bytes, Result, ok, err, length, take, drop, ltb, leb,
  ◌==◌, if◌then◌else◌, not,
}
use hosts.Base.Word.{wrap}
use hosts.Base.Order.{str_ord}
use hosts.Base.Collections.{eqb}
use hosts.BoundPlan.{LogicalPartitionId}
use hosts.Transaction.Mirror.{
  TransferRef, TransferDirectionMirror, MirroredDtype, MirroredStorageLayout, TransportPathMirror,
  host_staged, TransferOperationMirror, dtype_tag, layout_tag,
}

pub record ByteRange : Type 0 where
  pub offset : ℕ
  pub length : ℕ

unfoldable pub new_range : ℕ → ℕ → ByteRange
new_range o n = record { offset = o; length = n }

-- `+` wraps in a release build.
unfoldable pub end : ByteRange → ℕ
end r = wrap (r.offset + r.length)

-- A `Duration` is its nanoseconds.
pub record TransferSpec : Type 0 where
  pub transfer_ref : TransferRef
  pub source_owner : LogicalPartitionId
  pub destination : LogicalPartitionId
  pub range : ByteRange
  pub direction : TransferDirectionMirror
  pub dtype : MirroredDtype
  pub layout : MirroredStorageLayout
  pub generation : ℕ
  pub path_label : TransportPathMirror
  pub timeout : ℕ

unfoldable pub new_spec :
    TransferRef
    → LogicalPartitionId
    → LogicalPartitionId
    → ByteRange
    → TransferDirectionMirror
    → MirroredDtype
    → MirroredStorageLayout
    → ℕ
    → ℕ
    → TransferSpec
new_spec ref owner destination range direction dtype layout generation timeout = record {
  transfer_ref = ref;
  source_owner = owner;
  destination = destination;
  range = range;
  direction = direction;
  dtype = dtype;
  layout = layout;
  generation = generation;
  path_label = host_staged;
  timeout = timeout;
}

unfoldable pub from_mirror : TransferOperationMirror → ℕ → TransferSpec
unfolding new_range
from_mirror m timeout = record {
  transfer_ref = m.id;
  source_owner = m.source;
  destination = m.destination;
  range = new_range 0 m.byte_count;
  direction = m.direction;
  dtype = m.element_dtype;
  layout = m.layout;
  generation = m.producer_generation;
  path_label = m.path_label;
  timeout = timeout;
}

pub record SourceValue : Type 0 where
  pub owner : LogicalPartitionId
  pub dtype : MirroredDtype
  pub layout : MirroredStorageLayout
  pub generation : ℕ
  pub content : List ℕ

unfoldable pub source_bytes : SourceValue → ℕ
source_bytes s = length s.content

-- The slice `[start..stop]` panics where it is not ordered or not within the list.
unfoldable pub sub_list : ℕ → ℕ → List ℕ → Option (List ℕ)
sub_list start stop xs =
    if leb start stop
    then if leb stop (length xs) then some (take (stop - start) (drop start xs)) else none
    else none

-- The `debug_assert!` is not run in a release build, and a u64 is a `usize` on a 64-bit host.
unfoldable pub slice : SourceValue → ByteRange → Option (List ℕ)
unfolding sub_list end
slice s r = sub_list r.offset (end r) s.content

pub data TransferRejection : Type 0 where
  dtype_mismatch : TransferRef → MirroredDtype → MirroredDtype → TransferRejection
  layout_mismatch : TransferRef → MirroredStorageLayout → MirroredStorageLayout → TransferRejection
  range_out_of_bounds : TransferRef → ByteRange → ℕ → TransferRejection
  generation_mismatch : TransferRef → ℕ → ℕ → TransferRejection
  owner_mismatch destination_mismatch :
      TransferRef → LogicalPartitionId → LogicalPartitionId → TransferRejection

unfoldable pub rejection_class : TransferRejection → Str
rejection_class (dtype_mismatch t d a) = bytes "dtype mismatch"
rejection_class (layout_mismatch t d a) = bytes "layout mismatch"
rejection_class (range_out_of_bounds t r n) = bytes "out-of-bounds range"
rejection_class (generation_mismatch t d a) = bytes "generation mismatch"
rejection_class (owner_mismatch t d a) = bytes "owner mismatch"
rejection_class (destination_mismatch t d a) = bytes "destination mismatch"

unfoldable pub validate_before_copy :
    TransferSpec → SourceValue → LogicalPartitionId → Result (Unit {0}) TransferRejection
unfolding end source_bytes dtype_tag layout_tag
validate_before_copy spec source destination =
    if not (dtype_tag spec.dtype == dtype_tag source.dtype)
    then err (dtype_mismatch spec.transfer_ref spec.dtype source.dtype)
    else if not (layout_tag spec.layout == layout_tag source.layout)
    then err (layout_mismatch spec.transfer_ref spec.layout source.layout)
    else if ltb (source_bytes source) (end spec.range)
    then err (range_out_of_bounds spec.transfer_ref spec.range (source_bytes source))
    else if not (spec.generation == source.generation)
    then err (generation_mismatch spec.transfer_ref spec.generation source.generation)
    else if not (eqb spec.source_owner source.owner)
    then err (owner_mismatch spec.transfer_ref spec.source_owner source.owner)
    else if not (eqb spec.destination destination)
    then err (destination_mismatch spec.transfer_ref spec.destination destination)
    else ok tt
