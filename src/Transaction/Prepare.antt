-- ===== src/Transaction/Prepare.antt =====
-- `ExecutionTransaction::prepare`
-- (crates/host-coordinator/src/execution_transaction/transaction.rs), gate by gate.
use hosts.Base.{
  ℕ, suc, Bool, false, List, [], ◌∷◌, ◌++◌, Option, none, some, Result, ok, err, Raise, raised,
  panicked, ltb, if◌then◌else◌, ◌||◌,
}
use hosts.Base.Order.{nat_ord, str_ord}
use hosts.Base.Collections.{eqb, get, insert, keys, contains, collect}
use hosts.BoundPlan.{LogicalPartitionId, PartitionBinding, Bindings, bindings_of}
use hosts.Partition.{PartitionBudgetLedger}
use hosts.Transaction.Mirror.{
  TransactionOperation, launch, transfer, broadcast, barrier, OperationRef, BarrierRef, LaunchRef,
  operation_ref_ord,
}
use hosts.Transaction.Operation.{operation_ref, partitions_of}
use hosts.Transaction.Reservation.{
  transfer_staging, activation_scratch, ReservationRecord, Reservation, class_six_bytes,
  class_three_bytes, derive_reservation, derive_declared_write_set,
}
use hosts.Transaction.State.{
  TransactionState, fresh, prepared, BackendError, PrepareError, prepare_invalid_state,
  unknown_partition, duplicate_operation, undeclared_boundary_barrier, undeclared_boundary_launch,
  missing_admitted_budget, reservation_exceeds_budget, prepare_backend,
}
use hosts.Transaction.Backend.{DeviceExecutionBackend}
use hosts.Transaction.Coordinator.{ExecutionTransaction, nanos_u64}

abbrev pub Prepared : Type 0 → Type 0
Prepared A = Result A (Raise PrepareError)

infixl 5 ◌>>=◌ ◌>>◌
abbrev pub ◌>>=◌ : {A B : Type 0} → Prepared A → (A → Prepared B) → Prepared B
ok a >>= f = f a
err e >>= f = err e

abbrev pub ◌>>◌ : {B : Type 0} → Prepared (Unit {0}) → Prepared B → Prepared B
m >> k = m >>= λ _. k

abbrev refuse : {A : Type 0} → PrepareError → Prepared A
refuse e = err (raised e)

-- 1. Topology authority.
unfoldable pub check_partitions :
    List LogicalPartitionId → ℕ → List LogicalPartitionId → Prepared (Unit {0})
check_partitions declared index [] = ok tt
check_partitions declared index (p ∷ ps) =
    if contains p declared
    then check_partitions declared index ps
    else refuse (unknown_partition p index)

unfoldable pub check_topology :
    List LogicalPartitionId → ℕ → List TransactionOperation → Prepared (Unit {0})
check_topology declared index [] = ok tt
check_topology declared index (op ∷ ops) = do
  check_partitions declared index (partitions_of op)
  check_topology declared (suc index) ops

-- 2. Snapshot integrity: the index of each operation under its reference.
unfoldable pub index_operations :
    List TransactionOperation → ℕ → List (OperationRef × ℕ) → Prepared (List (OperationRef × ℕ))
index_operations [] index ks = ok ks
index_operations (op ∷ ops) index ks =
    let rest = index_operations ops (suc index) (insert (operation_ref op) index ks) in
    elim (get (operation_ref op) ks) [
      | some old ↦ refuse (duplicate_operation (operation_ref op))
      | none ↦ rest
    ]

-- 3. Boundary declaration.
abbrev pub is_barrier : BarrierRef → TransactionOperation → Bool
is_barrier r (barrier ref ps) = eqb ref r
is_barrier r (launch p ref n) = false
is_barrier r (transfer t) = false
is_barrier r (broadcast b) = false

abbrev pub is_launch : LaunchRef → TransactionOperation → Bool
is_launch r (launch p ref n) = eqb ref r
is_launch r (transfer t) = false
is_launch r (broadcast b) = false
is_launch r (barrier ref ps) = false

-- `Iterator::find`.
unfoldable pub find_operation :
    (TransactionOperation → Bool) → List TransactionOperation → Option TransactionOperation
find_operation test [] = none
find_operation test (op ∷ ops) = if test op then some op else find_operation test ops

abbrev any_operation : (TransactionOperation → Bool) → List TransactionOperation → Bool
any_operation test [] = false
any_operation test (op ∷ ops) = test op || any_operation test ops

unfoldable pub check_barriers : List TransactionOperation → List BarrierRef → Prepared (Unit {0})
check_barriers ops [] = ok tt
check_barriers ops (r ∷ rs) =
    if any_operation (is_barrier r) ops
    then check_barriers ops rs
    else refuse (undeclared_boundary_barrier r)

unfoldable pub check_launches : List TransactionOperation → List LaunchRef → Prepared (Unit {0})
check_launches ops [] = ok tt
check_launches ops (r ∷ rs) =
    if any_operation (is_launch r) ops
    then check_launches ops rs
    else refuse (undeclared_boundary_launch r)

-- 4. Admitted budgets.
unfoldable pub all_partitions : List TransactionOperation → List LogicalPartitionId
all_partitions [] = []
all_partitions (op ∷ ops) = partitions_of op ++ all_partitions ops

unfoldable pub referenced_partitions : List TransactionOperation → List LogicalPartitionId
unfolding all_partitions collect
referenced_partitions ops = collect (all_partitions ops)

unfoldable pub check_admitted : Bindings → List LogicalPartitionId → Prepared (Unit {0})
check_admitted bindings [] = ok tt
check_admitted bindings (p ∷ ps) =
    let rest = check_admitted bindings ps in
    elim (get p bindings) [
      | none ↦ err panicked
      | some b ↦ elim b.virtual_partition [
        | none ↦ refuse (missing_admitted_budget p)
        | some v ↦ rest
      ]
    ]

-- 5. The reservation against the admitted ledger.
abbrev pub check_record :
    LogicalPartitionId → ReservationRecord → PartitionBudgetLedger → Prepared (Unit {0})
check_record p r ledger =
    if ltb ledger.transfer_staging_bytes (class_six_bytes r)
    then refuse (
        reservation_exceeds_budget p transfer_staging (class_six_bytes r)
          ledger.transfer_staging_bytes)
    else if ltb ledger.activation_scratch_bytes (class_three_bytes r)
    then refuse (
        reservation_exceeds_budget p activation_scratch (class_three_bytes r)
          ledger.activation_scratch_bytes)
    else ok tt

unfoldable pub check_budget :
    LogicalPartitionId → ReservationRecord → Option PartitionBinding → Prepared (Unit {0})
check_budget p r none = err panicked
check_budget p r (some b) = elim b.virtual_partition [
  | none ↦ err panicked
  | some v ↦ check_record p r v.ledger
]

unfoldable pub check_budgets : Bindings → Reservation → Prepared (Unit {0})
check_budgets bindings [] = ok tt
check_budgets bindings ((p, r) ∷ rs) = do
  check_budget p r (get p bindings)
  check_budgets bindings rs

abbrev pub check_state : TransactionState → Prepared (Unit {0})
check_state fresh = ok tt
check_state s = refuse (prepare_invalid_state s)

abbrev pub bindings_or_panic : Option Bindings → Prepared Bindings
bindings_or_panic none = err panicked
bindings_or_panic (some bs) = ok bs

abbrev pub Plan : Type 0
Plan = List (OperationRef × ℕ) × Reservation

-- All the gates, in their order: the operation index and the reservation of an accepted plan.
unfoldable pub check_plan : ExecutionTransaction → Prepared Plan
unfolding check_topology index_operations check_barriers check_launches check_admitted check_budgets
check_plan t = do
  check_state t.state
  bindings ← bindings_or_panic (bindings_of t.bound_plan)
  check_topology (keys bindings) 0 t.operations
  ks ← index_operations t.operations 0 []
  check_barriers t.operations t.commit_boundary.barriers
  check_launches t.operations t.commit_boundary.launches
  check_admitted bindings (referenced_partitions t.operations)
  let reservation = derive_reservation t.operations (referenced_partitions t.operations)
  check_budgets bindings reservation
  ok (ks, reservation)

module _ {B : Type 0} (d : DeviceExecutionBackend B) where
  -- Hold the reservation, up to the first refusal.
  unfoldable pub reserve_all : Reservation → B → B × Option BackendError
  reserve_all [] b = (b, none)
  reserve_all ((p, r) ∷ rs) b =
      let rest = reserve_all rs (d.reserve p r b).0 in
      elim (d.reserve p r b).1 [ some e ↦ ((d.reserve p r b).0, some e) | none ↦ rest ]

  abbrev pub accept : Plan → ℕ → ExecutionTransaction → ExecutionTransaction
  accept plan nanos t = record t {
    operation_keys = plan.0;
    reservation = some plan.1;
    declared_write_set = derive_declared_write_set t.operations;
    timings = record timings { prepare_nanos = nanos_u64 nanos };
    state = prepared;
  }
    where
      open t use {timings}

  abbrev pub hold :
      Plan
      → ℕ
      → ExecutionTransaction
      → B × Option BackendError
      → ExecutionTransaction × B × Prepared (Unit {0})
  hold plan nanos t (b, some e) = (t, b, refuse (prepare_backend e))
  hold plan nanos t (b, none) = (accept plan nanos t, b, ok tt)

  -- `nanos` is the time that the call took.
  unfoldable pub prepare :
      ℕ → ExecutionTransaction → B → ExecutionTransaction × B × Prepared (Unit {0})
  unfolding check_plan reserve_all
  prepare nanos t b = elim (check_plan t) [
    | err e ↦ (t, b, err e)
    | ok plan ↦ hold plan nanos t (reserve_all plan.1 b)
  ]
