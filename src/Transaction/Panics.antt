-- ===== src/Transaction/Panics.antt =====
-- `ExecutionTransaction::prepare` does not panic
-- (crates/host-coordinator/src/execution_transaction/transaction.rs): each `expect` of a gate is
-- covered by the gates before it.
use hosts.Base.{
  ℕ, suc, true, false, List, [], ◌∷◌, ◌++◌, Option, none, some, ok, err, raised, panicked, ◌≡◌, ◌≢◌,
  refl, sym, ap, ◌∙◌, arith, inl, inr, Bool-cases, Option-cases, Result-cases, ◌||◌,
}
use hosts.Base.Order.{str_ord}
use hosts.Base.Collections.{
  eqb, eqb_self, get, insert, keys, contains, contains-extend, contains-keys,
}
use hosts.BoundPlan.{LogicalPartitionId, PartitionBinding, Bindings, is_degenerate, bindings_of}
use hosts.Partition.{VirtualDevicePartition}
use hosts.Transaction.Mirror.{
  operation_ref_ord, TransactionOperation, OperationRef, BarrierRef, LaunchRef,
}
use hosts.Transaction.Operation.{partitions_of, operation_ref}
use hosts.Transaction.Reservation.{ReservationRecord, Reservation, derive_reservation}
use hosts.Transaction.ReservationSum.{derive_reservation-sum}
use hosts.Transaction.Budget.{prepare_held, prepare_refused}
use hosts.Transaction.State.{BackendError, TransactionState}
use hosts.Transaction.Backend.{DeviceExecutionBackend}
use hosts.Transaction.Coordinator.{ExecutionTransaction}
use hosts.Transaction.Prepare.{
  Prepared, ◌>>=◌, Plan, check_state, bindings_or_panic, check_topology, check_partitions,
  index_operations, check_barriers, check_launches, check_admitted, check_budget, check_budgets,
  check_plan, referenced_partitions, all_partitions, reserve_all, hold, prepare,
}

-- A gate that does not end in a panic.
abbrev Sound : {A : Type 0} → Prepared A → Type 0
Sound m = ¬ (m ≡ err panicked)

-- A chain of sound gates is sound, where each may use that the ones before it ended well.
bind-Sound :
    {First Last : Type 0} (gate : Prepared First) (later : First → Prepared Last)
    → Sound gate
    → ((first : First) → gate ≡ ok first → Sound (later first))
    → Sound (gate >>= later)
bind-Sound (ok first) later g l p = l first refl p
bind-Sound (err (raised e)) later g l p = absurd (ground arith)
bind-Sound (err panicked) later g l p = g refl

-- A partition bound to a virtual partition.
abbrev Bound : Bindings → LogicalPartitionId → Type 0
Bound bs p =
    (b : PartitionBinding) × (v : VirtualDevicePartition) × (get p bs ≡ some b)
    × (b.virtual_partition ≡ some v)

state-Sound : (s : TransactionState) → Sound (check_state s)
state-Sound s h = ground arith

partitions-Sound :
    (declared : List LogicalPartitionId) (i : ℕ) (ps : List LogicalPartitionId)
    → Sound (check_partitions declared i ps)
unfolding check_partitions
partitions-Sound declared i [] h = ground arith
partitions-Sound declared i (p ∷ ps) h = ground (arith, partitions-Sound declared i ps)

partitions_declared :
    (declared : List LogicalPartitionId) (i : ℕ) (ps : List LogicalPartitionId)
    (p : LogicalPartitionId)
    → check_partitions declared i ps ≡ ok tt
    → contains p ps ≡ true
    → contains p declared ≡ true
unfolding check_partitions contains
partitions_declared declared i [] p h m = ground arith
partitions_declared declared i (q ∷ ps) p h m =
    ground (arith, partitions_declared declared i ps p, str_ord.eq_of_cmp p q)

topology-Sound :
    (declared : List LogicalPartitionId) (i : ℕ) (ops : List TransactionOperation)
    → Sound (check_topology declared i ops)
unfolding check_topology
topology-Sound declared i [] h = ground arith
topology-Sound declared i (op ∷ ops) h =
    bind-Sound (check_partitions declared i (partitions_of op)) _
      (partitions-Sound declared i (partitions_of op)) (λ u e. topology-Sound declared (suc i) ops)
      h

contains-append :
    (p : LogicalPartitionId) (xs ys : List LogicalPartitionId)
    → contains p (xs ++ ys) ≡ (contains p xs || contains p ys)
unfolding contains
contains-append p [] ys = refl
contains-append p (x ∷ xs) ys = ground (arith, contains-append p xs ys)

topology_declared :
    (declared : List LogicalPartitionId) (i : ℕ) (ops : List TransactionOperation)
    (p : LogicalPartitionId)
    → check_topology declared i ops ≡ ok tt
    → contains p (all_partitions ops) ≡ true
    → contains p declared ≡ true
unfolding check_topology all_partitions contains
topology_declared declared i [] p h m = ground arith
topology_declared declared i (op ∷ ops) p h m = ground (
  arith,
  contains-append p (partitions_of op) (all_partitions ops),
  partitions_declared declared i (partitions_of op) p,
  topology_declared declared (suc i) ops p,
)

index-Sound :
    (ops : List TransactionOperation) (i : ℕ) (ks : List (OperationRef × ℕ))
    → Sound (index_operations ops i ks)
unfolding index_operations
index-Sound [] i ks h = ground arith
index-Sound (op ∷ ops) i ks h =
    ground (arith, index-Sound ops (suc i) (insert (operation_ref op) i ks))

barriers-Sound :
    (ops : List TransactionOperation) (rs : List BarrierRef) → Sound (check_barriers ops rs)
unfolding check_barriers
barriers-Sound ops [] h = ground arith
barriers-Sound ops (r ∷ rs) h = ground (arith, barriers-Sound ops rs)

launches-Sound :
    (ops : List TransactionOperation) (rs : List LaunchRef) → Sound (check_launches ops rs)
unfolding check_launches
launches-Sound ops [] h = ground arith
launches-Sound ops (r ∷ rs) h = ground (arith, launches-Sound ops rs)

admitted-Sound :
    (bs : Bindings) (ps : List LogicalPartitionId)
    → ((p : LogicalPartitionId) → contains p ps ≡ true → contains p (keys bs) ≡ true)
    → Sound (check_admitted bs ps)
unfolding check_admitted contains
admitted-Sound bs [] k h = ground arith
admitted-Sound bs (p ∷ ps) k h = ground (
  arith,
  k p (ground (arith, eqb_self p)),
  contains-keys p bs,
  admitted-Sound bs ps (λ q m. k q (ground (arith, m))),
)

admitted-Bound :
    (bs : Bindings) (ps : List LogicalPartitionId) (p : LogicalPartitionId)
    → check_admitted bs ps ≡ ok tt
    → contains p ps ≡ true
    → Bound bs p
unfolding check_admitted contains
admitted-Bound bs [] p h m = absurd (ground arith)
admitted-Bound bs (q ∷ ps) p h m = elim (Bool-cases (eqb p q)) [
  | inl e ↦ elim (Option-cases (get p bs)) [
    | inl g ↦ absurd (ground (arith, str_ord.eq_of_cmp p q))
    | inr (b, g) ↦ elim (Option-cases b.virtual_partition) [
      | inl n ↦ absurd (ground (arith, str_ord.eq_of_cmp p q))
      | inr (v, w) ↦ (b, v, g, w)
    ]
  ]
  | inr e ↦ admitted-Bound bs ps p (ground arith) (ground arith)
]

budget-Sound :
    (bs : Bindings) (p : LogicalPartitionId) (r : ReservationRecord)
    → Bound bs p
    → Sound (check_budget p r (get p bs))
unfolding check_budget
budget-Sound bs p r (b, v, g, w) h = ground arith

budgets-Sound :
    (bs : Bindings) (rs : Reservation)
    → ((p : LogicalPartitionId) → contains p (keys rs) ≡ true → Bound bs p)
    → Sound (check_budgets bs rs)
unfolding check_budgets contains
budgets-Sound bs [] k h = ground arith
budgets-Sound bs ((p, r) ∷ rs) k h =
    bind-Sound (check_budget p r (get p bs)) _
      (budget-Sound bs p r (k p (ground (arith, eqb_self p))))
      (λ u e. budgets-Sound bs rs (λ q m. k q (ground (arith, m)))) h

-- The reservation's partitions are the referenced ones.
reserved_referenced :
    (ops : List TransactionOperation) (ps : List LogicalPartitionId) (p : LogicalPartitionId)
    → contains p (keys (derive_reservation ops ps)) ≡ true
    → contains p ps ≡ true
unfolding get
reserved_referenced ops ps p h =
    ground (arith, contains-keys p (derive_reservation ops ps), (derive_reservation-sum ops ps p).0)

referenced_declared :
    (declared : List LogicalPartitionId) (ops : List TransactionOperation) (p : LogicalPartitionId)
    → check_topology declared 0 ops ≡ ok tt
    → contains p (referenced_partitions ops) ≡ true
    → contains p declared ≡ true
unfolding referenced_partitions contains
referenced_declared declared ops p h m =
    topology_declared declared 0 ops p h (sym (contains-extend p [] (all_partitions ops)) ∙ m)

bindings-Sound :
    (t : ExecutionTransaction)
    → is_degenerate t.bound_plan ≡ false
    → Sound (bindings_or_panic (bindings_of t.bound_plan))
unfolding is_degenerate bindings_of
bindings-Sound t n h = ground arith

check_plan-Sound :
    (t : ExecutionTransaction) → is_degenerate t.bound_plan ≡ false → Sound (check_plan t)
unfolding check_plan
check_plan-Sound t n =
    let ops = t.operations in
    let ps = referenced_partitions t.operations in
    bind-Sound (check_state t.state) _ (state-Sound t.state) (λ u h0.
      bind-Sound (bindings_or_panic (bindings_of t.bound_plan)) _ (bindings-Sound t n) (λ bs h1.
        bind-Sound (check_topology (keys bs) 0 ops) _ (topology-Sound (keys bs) 0 ops) (λ u2 h2.
          bind-Sound (index_operations ops 0 []) _ (index-Sound ops 0 []) (λ ks h3.
            bind-Sound (check_barriers ops t.commit_boundary.barriers) _
              (barriers-Sound ops t.commit_boundary.barriers)
              (λ u4 h4.
                bind-Sound (check_launches ops t.commit_boundary.launches) _
                  (launches-Sound ops t.commit_boundary.launches)
                  (λ u5 h5.
                    bind-Sound (check_admitted bs ps) _
                      (admitted-Sound bs ps (λ p m. referenced_declared (keys bs) ops p h2 m))
                      (λ u6 h6.
                        bind-Sound (check_budgets bs (derive_reservation ops ps)) _
                          (budgets-Sound bs (derive_reservation ops ps)
                            (λ p m. admitted-Bound bs ps p h6 (reserved_referenced ops ps p m)))
                          (λ u7 h7 h. ground arith))))))))

module _ {B : Type 0} (d : DeviceExecutionBackend B) where
  hold-Sound :
      (plan : Plan) (nanos : ℕ) (t : ExecutionTransaction) (x : B × Option BackendError)
      → Sound ((hold d plan nanos t x).2)
  hold-Sound plan nanos t (b, some e) h = ground arith
  hold-Sound plan nanos t (b, none) h = ground arith

  -- `prepare` does not panic, whatever the transaction's operations, boundary, state and bindings,
  -- if the transaction's plan is not degenerate, as construction requires.
  pub prepare_never_panics :
      (nanos : ℕ) (t : ExecutionTransaction) (b : B)
      → is_degenerate t.bound_plan ≡ false
      → (prepare d nanos t b).2 ≢ err panicked
  prepare_never_panics nanos t b n h = elim (Result-cases (check_plan t)) [
    | inl (plan, e) ↦
        hold-Sound plan nanos t (reserve_all d plan.1 b)
          (ap (λ x. x.2) (sym (prepare_held d nanos t b plan e)) ∙ h)
    | inr (x, e) ↦
        let q : err x ≡ err panicked = ap (λ y. y.2) (sym (prepare_refused d nanos t b x e)) ∙ h in
        let w : x ≡ panicked = ground arith in check_plan-Sound t n (e ∙ ap err w)
  ]
