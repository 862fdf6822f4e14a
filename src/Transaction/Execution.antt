-- ===== src/Transaction/Execution.antt =====
-- `ExecutionTransaction::execute` on a prepared transaction, and the in-memory backend under the
-- trait's contract (crates/host-coordinator/src/execution_transaction/{transaction,backend}.rs).
use hosts.Base.{
  ℕ, true, List, [], ◌∷◌, some, ◌≡◌, refl, ap, arith, inl, inr, Option-cases, Bool-cases,
}
use hosts.BoundPlan.{LogicalPartitionId}
use hosts.Base.Collections.{get}
use hosts.Base.Order.{str_ord}
use hosts.Transaction.Mirror.{OperationEvent, StagedWrite}
use hosts.Transaction.Operation.{completed_events}
use hosts.Transaction.Reservation.{ReservationRecord, WriteSet}
use hosts.Transaction.State.{BackendError, prepared, executing}
use hosts.Transaction.Backend.{DeviceExecutionBackend, PublishesAtomically}
use hosts.Transaction.Fake.{
  FakeExecutionBackend, fake, fake_reserve, fake_run_operation, dispatch_events, fake_stage_write,
  fake_publish, fake_release, fake_retire,
}
use hosts.Transaction.Coordinator.{ExecutionTransaction}
use hosts.Transaction.Execute.{execute, execute_all, is_prepared, with_execute_time}
use hosts.Transaction.RunOutcomes.{RunOutcome, execute_all-RunOutcome}
use hosts.Transaction.Invariant.{IsWellFormed, facts_in, plan-AllPlanned}

module _ {B : Type 0} (d : DeviceExecutionBackend B) where
  -- `execute` of a well-formed prepared transaction hands the plan's operations to the backend in
  -- order. If the backend runs each and takes all its writes, the answer is `ok`, with all writes
  -- staged, a record of each operation appended, and after each operation the events recorded that
  -- the backend then confirms. Otherwise it stops at the first operation to which, or to a
  -- write of which, the backend answers an error: that error is the answer and the transaction's
  -- failure, and the records, the writes and the events are those of the operations before it, with the
  -- writes taken of the one that broke. The call's time is recorded on each branch.
  pub execute-RunOutcome :
      (nanos : ℕ) (t : ExecutionTransaction) (b : B)
      → IsWellFormed t
      → t.state ≡ prepared
      → (t' : ExecutionTransaction) × RunOutcome d t.operations
          (record t { state = executing })
          b
          t'
          (execute d nanos t b).1
          (execute d nanos t b).2
        × ((execute d nanos t b).0 ≡ with_execute_time d nanos t')
  unfolding execute
  execute-RunOutcome nanos t b w s =
      let (u, f, n, k) = facts_in prepared t s w in
      let q : is_prepared t.state ≡ true = ap is_prepared s in
      let t1 : ExecutionTransaction = record t { state = executing } in
      (
        (execute_all d t.operations t1 b).0,
        rw (execute, q)
            (execute_all-RunOutcome d t.operations t1 b refl k (plan-AllPlanned t.operations)),
        rw (execute, q) refl,
      )

-- What the in-memory backend has published: the writes and their bytes.
abbrev pub fake_published : FakeExecutionBackend → WriteSet × ℕ
fake_published b = (b.published_writes, b.published_total_bytes)

dispatch_publishes :
    (es : List OperationEvent) (b : FakeExecutionBackend)
    → fake_published (dispatch_events es b) ≡ fake_published b
unfolding dispatch_events
dispatch_publishes [] b = refl
dispatch_publishes (e ∷ es) b = dispatch_publishes es _

fake_reserve_publishes :
    (p : LogicalPartitionId) (r : ReservationRecord) (b : FakeExecutionBackend)
    → fake_published (fake_reserve p r b).0 ≡ fake_published b
unfolding fake_reserve
fake_reserve_publishes p r b = elim (Option-cases (get p b.reservations)) [
  | inl e ↦ rw (fake_reserve, e) refl
  | inr (x, e) ↦ rw (fake_reserve, e) refl
]

fake_stage_publishes :
    (w : StagedWrite) (b : FakeExecutionBackend)
    → fake_published (fake_stage_write w b).0 ≡ fake_published b
unfolding fake_stage_write
fake_stage_publishes w b = elim (Option-cases (get w.output_ref b.staged_writes)) [
  | inl e ↦ rw (fake_stage_write, e) refl
  | inr (x, e) ↦ rw (fake_stage_write, e) refl
]

fake_failed_publishes :
    (b : FakeExecutionBackend) (e : BackendError)
    → (fake_publish b).1 ≡ some e
    → fake_published (fake_publish b).0 ≡ fake_published b
unfolding fake_publish
fake_failed_publishes b x h = elim (Bool-cases b.published_once) [
  | inl e ↦ rw (fake_publish, e) refl
  | inr e ↦ absurd (ground arith)
]

-- The in-memory backend publishes only in a `publish` that goes through.
pub fake-PublishesAtomically : PublishesAtomically fake fake_published
unfolding fake_run_operation fake_release fake_retire
fake-PublishesAtomically = record {
  reserve_publishes = fake_reserve_publishes;
  run_publishes = λ op b. dispatch_publishes (completed_events op) _;
  stage_publishes = fake_stage_publishes;
  failed_publishes = fake_failed_publishes;
  release_publishes = λ p b. refl;
  retire_publishes = λ p f b. refl;
}
