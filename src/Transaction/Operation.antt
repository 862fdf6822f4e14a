-- ===== src/Transaction/Operation.antt =====
-- The methods of `TransactionOperation`
-- (crates/host-coordinator/src/execution_transaction/mirror.rs): its snapshot key, partitions, byte
-- contract, completed events, staged writes and canonical bytes.
use native.Mathlib.Decide.{ℕ_discrete}
use hosts.Base.{
  ℕ, ◌-◌, ◌*◌, Bool, true, false, List, [], ◌∷◌, ◌++◌, map, Str, bytes, length, if◌then◌else◌,
}
use hosts.Base.Order.{nat_ord, str_ord}
use hosts.Base.Collections.{eqb, collect}
use hosts.Base.Word.{wrap}
use hosts.BoundPlan.{LogicalPartitionId}
use hosts.Identity.Bytes.{push_u64, push_str, push_list}
use hosts.Transaction.Mirror.{
  OutputRef, TransactionCommitBoundary, TransferOperationMirror, CollectiveBroadcastMirror,
  OperationRef, launch_of, transfer_of, collective_of, barrier_of, StagedWrite,
  TransactionOperation, launch, transfer, broadcast, barrier, OperationEvent, launch_completed,
  transfer_completed, broadcast_completed, barrier_completed, event_ord, direction_tag, dtype_tag,
  layout_tag, path_tag,
}

-- The derived equality.
unfoldable pub TransactionOperation-discrete : Discrete TransactionOperation
TransactionOperation-discrete = hlevel ℕ_discrete

unfoldable pub same_operation : TransactionOperation → TransactionOperation → Bool
same_operation a b = elim (TransactionOperation-discrete a b) [ yes e ↦ true | no n ↦ false ]

unfoldable pub operation_ref : TransactionOperation → OperationRef
operation_ref (launch partition ref output_bytes) = launch_of ref
operation_ref (transfer t) = transfer_of t.id
operation_ref (broadcast b) = collective_of b.id
operation_ref (barrier ref partitions) = barrier_of ref

unfoldable pub partitions_of : TransactionOperation → List LogicalPartitionId
unfolding collect
partitions_of (launch partition ref output_bytes) = collect (partition ∷ [])
partitions_of (transfer t) = collect (t.source ∷ t.destination ∷ [])
partitions_of (broadcast b) = b.participants
partitions_of (barrier ref partitions) = partitions

-- The bytes that the operation moves, in 64-bit arithmetic.
unfoldable pub byte_count_of : TransactionOperation → ℕ
byte_count_of (launch partition ref output_bytes) = 0
byte_count_of (transfer t) = t.byte_count
byte_count_of (broadcast b) = wrap (b.byte_count * (length b.participants - 1))
byte_count_of (barrier ref partitions) = 0

unfoldable pub completed_events : TransactionOperation → List OperationEvent
unfolding collect
completed_events (launch partition ref output_bytes) = launch_completed partition ref ∷ []
completed_events (transfer t) =
    collect (transfer_completed t.source t.id ∷ transfer_completed t.destination t.id ∷ [])
completed_events (broadcast b) = collect (map (λ p. broadcast_completed p b.id) b.participants)
completed_events (barrier ref partitions) = collect (map (λ p. barrier_completed p ref) partitions)

-- `format!("launch:{launch_ref}:output")` and its two kin.
abbrev pub launch_output : Str → OutputRef
launch_output ref = bytes "launch:" ++ (ref ++ bytes ":output")

abbrev pub transfer_output : Str → OutputRef
transfer_output id = bytes "transfer:" ++ (id ++ bytes ":destination")

abbrev pub broadcast_output : Str → Str → OutputRef
broadcast_output id participant = bytes "broadcast:" ++ (id ++ (bytes ":" ++ participant))

-- One write for each participant but the source.
pub broadcast_writes : CollectiveBroadcastMirror → List LogicalPartitionId → List StagedWrite
broadcast_writes b [] = []
broadcast_writes b (p ∷ ps) =
    if eqb p b.source
    then broadcast_writes b ps
    else record { partition = p; output_ref = broadcast_output b.id p; byte_count = b.byte_count }
      ∷ broadcast_writes b ps

unfoldable pub staged_writes : TransactionOperation → List StagedWrite
unfolding broadcast_writes
staged_writes (launch partition ref output_bytes) =
    record { partition = partition; output_ref = launch_output ref; byte_count = output_bytes } ∷ []
staged_writes (transfer t) =
    record {
      partition = t.destination;
      output_ref = transfer_output t.id;
      byte_count = t.byte_count;
    }
    ∷ []
staged_writes (broadcast b) = broadcast_writes b b.participants
staged_writes (barrier ref partitions) = []

unfoldable pub boundary_bytes : TransactionCommitBoundary → List ℕ
unfolding push_list push_str
boundary_bytes c = push_list push_str c.barriers ++ push_list push_str c.launches

unfoldable pub transfer_bytes : TransferOperationMirror → List ℕ
unfolding push_str push_u64 direction_tag dtype_tag layout_tag path_tag boundary_bytes
transfer_bytes t =
    push_str t.id
    ++ (push_str t.source
        ++ (push_str t.destination
            ++ (push_u64 t.byte_count
                ++ (push_u64 (direction_tag t.direction)
                    ++ (push_u64 (dtype_tag t.element_dtype)
                        ++ (push_u64 (layout_tag t.layout)
                            ++ (push_u64 (path_tag t.path_label)
                                ++ (push_u64 t.producer_generation
                                    ++ (push_u64 t.consumer_generation
                                        ++ boundary_bytes t.completion_boundary)))))))))

unfoldable pub broadcast_bytes : CollectiveBroadcastMirror → List ℕ
unfolding push_str push_u64 push_list
broadcast_bytes b =
    push_str b.id
    ++ (push_str b.source ++ (push_list push_str b.participants ++ push_u64 b.byte_count))

unfoldable pub operation_bytes : TransactionOperation → List ℕ
unfolding push_str push_u64 push_list transfer_bytes broadcast_bytes
operation_bytes (launch partition ref output_bytes) =
    0 ∷ (push_str partition ++ (push_str ref ++ push_u64 output_bytes))
operation_bytes (transfer t) = 1 ∷ transfer_bytes t
operation_bytes (broadcast b) = 2 ∷ broadcast_bytes b
operation_bytes (barrier ref partitions) = 3 ∷ (push_str ref ++ push_list push_str partitions)
