-- ===== src/Transport/PeerCopies.antt =====
-- `PeerAdapter::copy` (crates/host-coordinator/src/transport.rs).
use hosts.Base.{Result, ok, err, ◌≢◌, arith, inl, inr, Bool-cases}
use hosts.Base.Order.{nat_ord}
use hosts.BoundPlan.{LogicalPartitionId}
use hosts.Transport.Spec.{TransferSpec, SourceValue, TransferRejection, validate_before_copy}
use hosts.Transport.Peers.{DirectedPair, PeerPairRegistry, is_admitted}
use hosts.Transport.Adapter.{TransferOutcome, peer_copy_attempt, peer_checked}

peer_refuses :
    (registry : PeerPairRegistry) (pair : DirectedPair) (v : Result (Unit {0}) TransferRejection)
    (o : TransferOutcome)
    → peer_checked registry pair v ≢ ok o
peer_refuses registry pair (err x) o h = ground arith
peer_refuses registry pair (ok u) o h = elim (Bool-cases (is_admitted pair registry)) [
  | inl e ↦ absurd (ground arith)
  | inr e ↦ absurd (ground arith)
]

-- `PeerAdapter` never copies: whatever pairs it admitted, the answer is an error.
pub peer_never_copies :
    (spec : TransferSpec) (source : SourceValue) (destination : LogicalPartitionId)
    (registry : PeerPairRegistry) (o : TransferOutcome)
    → peer_copy_attempt spec source destination registry ≢ ok o
unfolding peer_copy_attempt
peer_never_copies spec source destination registry o h =
    peer_refuses registry _ (validate_before_copy spec source destination) o h
