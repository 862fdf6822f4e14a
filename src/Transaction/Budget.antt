-- ===== src/Transaction/Budget.antt =====
-- What a transaction that `prepare` accepts holds
-- (crates/host-coordinator/src/execution_transaction/transaction.rs, `prepare`).
use hosts.Base.{
  ℕ, ◌≤◌, true, [], ◌∷◌, Option, none, some, ok, err, Raise, ◌≡◌, refl, sym, ap, ◌∙◌, arith, inl,
  inr, Bool-cases, Option-cases, Result-cases, Member,
}
use hosts.Base.Word.{wrap}
use hosts.Base.Order.{str_ord}
use hosts.Base.Collections.{eqb, get, contains, contains-extend, contains-Member}
use hosts.BoundPlan.{LogicalPartitionId, PartitionBinding, Bindings, bindings_of}
use hosts.Partition.{VirtualDevicePartition, PartitionBudgetLedger}
use hosts.Transaction.Reservation.{
  ReservationRecord, Reservation, class_six_bytes, class_three_bytes, derive_reservation,
}
use hosts.Transaction.ReservationSum.{class_six_sum, class_three_sum, derive_reservation-sum}
use hosts.Transaction.State.{BackendError, fresh, prepared, PrepareError}
use hosts.Transaction.Backend.{DeviceExecutionBackend}
use hosts.Transaction.Coordinator.{ExecutionTransaction}
use hosts.Transaction.Prepare.{
  Plan, check_record, check_budget, check_budgets, check_plan, referenced_partitions,
  all_partitions, reserve_all, prepare, hold, accept,
}
use hosts.Transaction.Index.{IsIndexed, index_operations-IsIndexed}
use hosts.Transaction.Accepted.{Accepted, check_plan-Accepted, gate_passed}

-- The two charges of a record stay within a virtual partition's ledger.
abbrev pub Fits : PartitionBudgetLedger → ℕ → ℕ → Type 0
Fits ledger six three =
    (six ≤ ledger.transfer_staging_bytes) × (three ≤ ledger.activation_scratch_bytes)

-- A partition is bound to a virtual partition whose ledger admits the two charges.
abbrev pub Admits : Bindings → LogicalPartitionId → ℕ → ℕ → Type 0
Admits bs p six three =
    (binding : PartitionBinding) × (v : VirtualDevicePartition) × (get p bs ≡ some binding)
    × (binding.virtual_partition ≡ some v)
    × Fits v.ledger six three

record-Fits :
    (p : LogicalPartitionId) (r : ReservationRecord) (ledger : PartitionBudgetLedger)
    → check_record p r ledger ≡ ok tt
    → Fits ledger (class_six_bytes r) (class_three_bytes r)
record-Fits p r ledger h = (ground arith, ground arith)

budget-Admits :
    (bs : Bindings) (p : LogicalPartitionId) (r : ReservationRecord) (b : Option PartitionBinding)
    → get p bs ≡ b
    → check_budget p r b ≡ ok tt
    → Admits bs p (class_six_bytes r) (class_three_bytes r)
unfolding check_budget
budget-Admits bs p r none g h = absurd (ground arith)
budget-Admits bs p r (some b) g h = elim (Option-cases b.virtual_partition) [
  | inl e ↦ absurd (ground arith)
  | inr (v, e) ↦ (b, v, g, e, record-Fits p r v.ledger (ground arith))
]

budgets-Admits :
    (bs : Bindings) (rs : Reservation) (p : LogicalPartitionId) (r : ReservationRecord)
    → check_budgets bs rs ≡ ok tt
    → get p rs ≡ some r
    → Admits bs p (class_six_bytes r) (class_three_bytes r)
unfolding check_budgets get
budgets-Admits bs [] p r h g = absurd (ground arith)
budgets-Admits bs ((q, s) ∷ rs) p r h g =
    let (u, h0, h1) = gate_passed (check_budget q s (get q bs)) _ h in
    elim (Bool-cases (eqb p q)) [
      | inl e ↦
          let p=q : p ≡ q = str_ord.eq_of_cmp p q (ground arith) in
          let r=s : r ≡ s = ground arith in
          rw (p=q, r=s) (budget-Admits bs q s (get q bs) refl (ground arith))
      | inr e ↦ budgets-Admits bs rs p r h1 (ground arith)
    ]

-- The gates' conclusion for one referenced partition.
Accepted-Admits :
    (t : ExecutionTransaction) (plan : Plan) (a : Accepted t plan) (p : LogicalPartitionId)
    → Member p (all_partitions t.operations)
    → Admits a.bindings p
        (wrap (class_six_sum p t.operations))
        (wrap (class_three_sum p t.operations))
unfolding referenced_partitions contains
Accepted-Admits t plan a p m =
    let known : contains p (referenced_partitions t.operations) ≡ true =
      contains-extend p [] (all_partitions t.operations)
      ∙ contains-Member p (all_partitions t.operations) m in
    let (r, g, six, three) =
      (derive_reservation-sum t.operations (referenced_partitions t.operations) p).1 known in
    rw (sym six, sym three)
      (budgets-Admits a.bindings
        (derive_reservation t.operations (referenced_partitions t.operations)) p r a.within_budget
        g)

-- What an accepted plan leaves in the transaction.
pub record PreparedWell (t t' : ExecutionTransaction) : Type 0 where
  pub bindings : Bindings
  pub was_fresh : t.state ≡ fresh
  pub now_prepared : t'.state ≡ prepared
  pub same_operations : t'.operations ≡ t.operations
  pub bound : bindings_of t.bound_plan ≡ some bindings
  pub indexed : IsIndexed t'.operation_keys t.operations
  pub reserved :
      t'.reservation ≡ some (derive_reservation t.operations (referenced_partitions t.operations))
  pub admits :
      (p : LogicalPartitionId)
      → Member p (all_partitions t.operations)
      → Admits bindings p
          (wrap (class_six_sum p t.operations))
          (wrap (class_three_sum p t.operations))

module _ {B : Type 0} (d : DeviceExecutionBackend B) where
  held :
      (nanos : ℕ) (t : ExecutionTransaction) (b : B) (plan : Plan) (x : B × Option BackendError)
      → (hold d plan nanos t x).2 ≡ ok tt
      → (hold d plan nanos t x).0 ≡ accept d plan nanos t
  held nanos t b plan (b', none) h = refl
  held nanos t b plan (b', some e) h = absurd (ground arith)

  pub prepare_held :
      (nanos : ℕ) (t : ExecutionTransaction) (b : B) (plan : Plan)
      → check_plan t ≡ ok plan
      → prepare d nanos t b ≡ hold d plan nanos t (reserve_all d plan.1 b)
  unfolding prepare
  prepare_held nanos t b plan e = rw (prepare, e) refl

  pub prepare_refused :
      (nanos : ℕ) (t : ExecutionTransaction) (b : B) (e : Raise PrepareError)
      → check_plan t ≡ err e
      → prepare d nanos t b ≡ (t, b, err e)
  unfolding prepare
  prepare_refused nanos t b x e = rw (prepare, e) refl

  pub accepted :
      (nanos : ℕ) (t : ExecutionTransaction) (b : B)
      → (prepare d nanos t b).2 ≡ ok tt
      → (plan : Plan) × Accepted t plan × ((prepare d nanos t b).0 ≡ accept d plan nanos t)
  accepted nanos t b h = elim (Result-cases (check_plan t)) [
    | inl (plan, e) ↦
        let q = prepare_held nanos t b plan e in
        (
          plan,
          check_plan-Accepted t plan e,
          ap (λ x. x.0) q
              ∙ held nanos t b plan (reserve_all d plan.1 b) (ap (λ x. x.2) (sym q) ∙ h),
        )
    | inr (x, e) ↦
        let q : err x ≡ ok tt = ap (λ x. x.2) (sym (prepare_refused nanos t b x e)) ∙ h in
        absurd (ground arith)
  ]

  -- A transaction that `prepare` accepts was fresh and is prepared. Its operations are indexed, each
  -- at its place. Its reservation is the one derived from the plan, and each partition that an
  -- operation names is bound to a virtual partition whose ledger admits the partition's two charges,
  -- each a sum over the operations modulo 2^64.
  pub prepare-PreparedWell :
      (nanos : ℕ) (t : ExecutionTransaction) (b : B)
      → (prepare d nanos t b).2 ≡ ok tt
      → PreparedWell t (prepare d nanos t b).0
  prepare-PreparedWell nanos t b h =
      let (plan, a, q) = accepted nanos t b h in
      rw q (record {
        bindings = a.bindings;
        was_fresh = a.was_fresh;
        now_prepared = refl;
        same_operations = refl;
        bound = a.bound;
        indexed = index_operations-IsIndexed t.operations plan.0 a.indexed;
        reserved = ap some a.derived;
        admits = Accepted-Admits t plan a;
      })

  held_unchanged :
      (nanos : ℕ) (t : ExecutionTransaction) (b : B) (plan : Plan) (x : B × Option BackendError)
      (e : Raise PrepareError)
      → (hold d plan nanos t x).2 ≡ err e
      → (hold d plan nanos t x).0 ≡ t
  held_unchanged nanos t b plan (b', some x) e h = refl
  held_unchanged nanos t b plan (b', none) e h = absurd (ground arith)

  -- A `prepare` that fails leaves the transaction as it was.
  pub prepare_unchanged :
      (nanos : ℕ) (t : ExecutionTransaction) (b : B) (e : Raise PrepareError)
      → (prepare d nanos t b).2 ≡ err e
      → (prepare d nanos t b).0 ≡ t
  prepare_unchanged nanos t b e h = elim (Result-cases (check_plan t)) [
    | inr (x, q) ↦ ap (λ y. y.0) (prepare_refused nanos t b x q)
    | inl (plan, q) ↦
        let s = prepare_held nanos t b plan q in
        ap (λ x. x.0) s
        ∙ held_unchanged nanos t b plan (reserve_all d plan.1 b) e (ap (λ x. x.2) (sym s) ∙ h)
  ]
