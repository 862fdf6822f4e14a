-- ===== src/Transport/Validation.antt =====
-- What `validate_before_copy` accepts, and the bytes of a validated range
-- (crates/host-coordinator/src/transport.rs).
use hosts.Base.{
  ℕ, ◌+◌, ◌-◌, ◌≤◌, ◌<◌, true, List, none, some, ok, length, take, drop, length-take, length-drop,
  leb, ◌≡◌, ◌↔◌, refl, ap, arith,
}
use hosts.Base.Word.{u64_mod}
use hosts.Base.Order.{str_ord}
use hosts.Base.Collections.{eqb_self, eq_of_eqb}
use hosts.BoundPlan.{LogicalPartitionId}
use hosts.Transaction.Mirror.{dtype_tag, layout_tag}
use hosts.Transaction.OperationBytes.{dtype_tag_injective, layout_tag_injective}
use hosts.Transport.Spec.{
  ByteRange, end, TransferSpec, SourceValue, source_bytes, sub_list, slice, validate_before_copy,
}

-- The declared facts are the actual ones, and the range's end, as it is computed, is in the content.
pub record Matches (spec : TransferSpec) (source : SourceValue) (destination : LogicalPartitionId)
    : Type 0 where
  pub dtype : spec.dtype ≡ source.dtype
  pub layout : spec.layout ≡ source.layout
  pub bounds : end spec.range ≤ source_bytes source
  pub generation : spec.generation ≡ source.generation
  pub owner : spec.source_owner ≡ source.owner
  pub target : spec.destination ≡ destination

pub validated :
    (spec : TransferSpec) (source : SourceValue) (destination : LogicalPartitionId)
    → validate_before_copy spec source destination ≡ ok tt
    → Matches spec source destination
unfolding validate_before_copy
validated spec source destination h = record {
  dtype = dtype_tag_injective spec.dtype source.dtype (ground arith);
  layout = layout_tag_injective spec.layout source.layout (ground arith);
  bounds = ground arith;
  generation = ground arith;
  owner = eq_of_eqb spec.source_owner source.owner (ground arith);
  target = eq_of_eqb spec.destination destination (ground arith);
}

accepts :
    (spec : TransferSpec) (source : SourceValue) (destination : LogicalPartitionId)
    → Matches spec source destination
    → validate_before_copy spec source destination ≡ ok tt
unfolding validate_before_copy
accepts spec source destination m = ground (
  arith,
  m.dtype,
  m.layout,
  m.bounds,
  m.generation,
  m.owner,
  m.target,
  ap dtype_tag m.dtype,
  ap layout_tag m.layout,
  eqb_self source.owner,
  eqb_self destination,
)

-- Validation accepts exactly the transfers whose declared facts are the actual ones and whose
-- range ends, modulo 2^64, within the content.
pub validate_before_copy-Matches :
    (spec : TransferSpec) (source : SourceValue) (destination : LogicalPartitionId)
    → (validate_before_copy spec source destination ≡ ok tt) ↔ Matches spec source destination
validate_before_copy-Matches spec source destination =
    (validated spec source destination, accepts spec source destination)

-- The bytes of a range that ends below 2^64 and within the content.
pub range_bytes : SourceValue → ByteRange → List ℕ
range_bytes source r = take r.length (drop r.offset source.content)

sub_list_lem :
    (start n stop : ℕ) (xs : List ℕ)
    → stop ≡ start + n
    → stop ≤ length xs
    → sub_list start stop xs ≡ some (take n (drop start xs))
unfolding sub_list
sub_list_lem start n stop xs e h =
    let m : stop - start ≡ n = omega arith in
    let l : leb start stop ≡ true = ground arith in
    let k : leb stop (length xs) ≡ true = ground arith in rw (l, k, m) refl

pub slice_in_bounds :
    (source : SourceValue) (r : ByteRange)
    → r.offset + r.length < u64_mod
    → end r ≤ source_bytes source
    → (slice source r ≡ some (range_bytes source r)) × (length (range_bytes source r) ≡ r.length)
unfolding slice range_bytes source_bytes end
slice_in_bounds source r f h = (
  sub_list_lem r.offset r.length (end r) source.content (omega arith) h,
  omega (
    arith,
    length-take r.length (drop r.offset source.content),
    length-drop r.offset source.content,
  ),
)

-- A range of two u64 words whose end passes 2^64 wraps below its start, and its slice panics.
pub slice_wrapped :
    (source : SourceValue) (r : ByteRange)
    → r.offset < u64_mod
    → r.length < u64_mod
    → u64_mod ≤ r.offset + r.length
    → slice source r ≡ none
unfolding slice
slice_wrapped source r o n w = ground arith
