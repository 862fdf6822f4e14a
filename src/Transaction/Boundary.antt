-- ===== src/Transaction/Boundary.antt =====
-- The commit boundary of a committed transaction
-- (crates/host-coordinator/src/execution_transaction/transaction.rs, `missing_boundary_refs`).
use hosts.Base.{true, List, [], ◌∷◌, Option, none, some, ◌≡◌, refl, arith, if◌then◌else◌}
use hosts.BoundPlan.{LogicalPartitionId}
use hosts.Base.Collections.{add, add_not_nil, contains}
use hosts.Base.Order.{nat_ord, str_ord}
use hosts.Transaction.Mirror.{
  boundary_ref_ord, event_ord, TransactionOperation, OperationEvent, BoundaryRef, BarrierRef,
  LaunchRef, barrier_completed, launch_completed, boundary_barrier, boundary_launch,
}
use hosts.Transaction.Operation.{partitions_of}
use hosts.Transaction.State.{committed}
use hosts.Transaction.Coordinator.{ExecutionTransaction}
use hosts.Transaction.Prepare.{is_barrier, is_launch, find_operation}
use hosts.Transaction.Finish.{
  missing_boundary_refs, missing_barriers, missing_launches, missing_of, add_missing,
}
use hosts.Transaction.Invariant.{IsWellFormed, facts_in}

-- The events of a boundary operation's participants.
abbrev pub AllCompleted :
    List OperationEvent → (LogicalPartitionId → OperationEvent) → List LogicalPartitionId → Type 0
AllCompleted done event [] = Unit
AllCompleted done event (p ∷ ps) = (contains (event p) done ≡ true) × AllCompleted done event ps

-- A boundary reference is reached: an operation carries it, and its participants are done.
abbrev pub Reached :
    List OperationEvent
    → (LogicalPartitionId → OperationEvent)
    → Option TransactionOperation
    → Type 0
Reached done event o =
    (op : TransactionOperation) × (o ≡ some op) × AllCompleted done event (partitions_of op)

add_missing_nil :
    (r : BoundaryRef) (event : LogicalPartitionId → OperationEvent) (done : List OperationEvent)
    (ps : List LogicalPartitionId) (missing : List BoundaryRef)
    → add_missing r event done ps missing ≡ []
    → (missing ≡ []) × AllCompleted done event ps
unfolding add_missing
add_missing_nil r event done [] missing h = (h, tt)
add_missing_nil r event done (p ∷ ps) missing h =
    let (m, all) =
      add_missing_nil r event done ps (if contains (event p) done then missing else add r missing)
        h in
    (ground (arith, add_not_nil r missing), (ground (arith, add_not_nil r missing), all))

missing_of_nil :
    (r : BoundaryRef) (event : LogicalPartitionId → OperationEvent) (done : List OperationEvent)
    (o : Option TransactionOperation) (missing : List BoundaryRef)
    → missing_of r event done o missing ≡ []
    → (missing ≡ []) × Reached done event o
unfolding missing_of
missing_of_nil r event done none missing h = absurd (add_not_nil r missing h)
missing_of_nil r event done (some op) missing h =
    let (m, all) = add_missing_nil r event done (partitions_of op) missing h in (m, (op, refl, all))

-- Each barrier of the boundary is reached.
abbrev pub BarriersReached :
    List TransactionOperation → List OperationEvent → List BarrierRef → Type 0
BarriersReached ops done [] = Unit
BarriersReached ops done (r ∷ rs) =
    Reached done (λ p. barrier_completed p r) (find_operation (is_barrier r) ops)
    × BarriersReached ops done rs

abbrev pub LaunchesReached :
    List TransactionOperation → List OperationEvent → List LaunchRef → Type 0
LaunchesReached ops done [] = Unit
LaunchesReached ops done (r ∷ rs) =
    Reached done (λ p. launch_completed p r) (find_operation (is_launch r) ops)
    × LaunchesReached ops done rs

missing_barriers_nil :
    (ops : List TransactionOperation) (done : List OperationEvent) (rs : List BarrierRef)
    (missing : List BoundaryRef)
    → missing_barriers ops done rs missing ≡ []
    → (missing ≡ []) × BarriersReached ops done rs
unfolding missing_barriers find_operation
missing_barriers_nil ops done [] missing h = (h, tt)
missing_barriers_nil ops done (r ∷ rs) missing h =
    let (m, rest) = missing_barriers_nil ops done rs _ h in
    let (m', here) =
      missing_of_nil (boundary_barrier r) (λ p. barrier_completed p r) done
        (find_operation (is_barrier r) ops) missing m in
    (m', (here, rest))

missing_launches_nil :
    (ops : List TransactionOperation) (done : List OperationEvent) (rs : List LaunchRef)
    (missing : List BoundaryRef)
    → missing_launches ops done rs missing ≡ []
    → (missing ≡ []) × LaunchesReached ops done rs
unfolding missing_launches find_operation
missing_launches_nil ops done [] missing h = (h, tt)
missing_launches_nil ops done (r ∷ rs) missing h =
    let (m, rest) = missing_launches_nil ops done rs _ h in
    let (m', here) =
      missing_of_nil (boundary_launch r) (λ p. launch_completed p r) done
        (find_operation (is_launch r) ops) missing m in
    (m', (here, rest))

-- The whole commit boundary of a transaction is reached.
abbrev pub BoundaryReached : ExecutionTransaction → Type 0
BoundaryReached t =
    BarriersReached t.operations t.completed_events t.commit_boundary.barriers
    × LaunchesReached t.operations t.completed_events t.commit_boundary.launches

boundary_reached : (t : ExecutionTransaction) → missing_boundary_refs t ≡ [] → BoundaryReached t
unfolding missing_boundary_refs
boundary_reached t h =
    let (m, launches) =
      missing_launches_nil t.operations t.completed_events t.commit_boundary.launches _ h in
    (
      (missing_barriers_nil t.operations t.completed_events t.commit_boundary.barriers [] m).1,
      launches,
    )

-- A committed transaction that is well-formed has reached its whole boundary: an operation of the
-- plan carries each barrier and each launch of it, and the completed events of that operation's
-- partitions are recorded.
pub committed-BoundaryReached :
    (t : ExecutionTransaction) → IsWellFormed t → t.state ≡ committed → BoundaryReached t
unfolding missing_boundary_refs
committed-BoundaryReached t w e =
    let (ordinal, decided, published, reported, sound, covered, missing) =
      facts_in committed t e w in
    boundary_reached t missing
