-- ===== src/Scenarios/Runs.antt =====
-- The theorems of the transaction at a concrete plan, run on the in-memory backend.
use hosts.Base.{
  panicked, ◌≢◌, ℕ, true, false, none, some, ok, err, raised, ◌≡◌, refl, arith, bytes, Str, ◌∷◌, [],
  Member, inl, inr,
}
use hosts.Base.Word.{wrap}
use hosts.Base.Order.{str_ord}
use hosts.Base.Collections.{contains, get}
use hosts.Transaction.Mirror.{TransactionOperation, transfer}
use hosts.Transaction.State.{prepared, executing, committed, prepare_invalid_state}
use hosts.Transaction.Fake.{FakeExecutionBackend, fake, new_fake}
use hosts.Transaction.Coordinator.{ExecutionTransaction, new_transaction}
use hosts.Transaction.Prepare.{prepare}
use hosts.Transaction.Execute.{execute, execute_operation, with_execute_time}
use hosts.Transaction.Finish.{commit, abort}
use hosts.Transaction.Reservation.{
  ReservationRecord, class_six_bytes, class_three_bytes, derive_reservation,
}
use hosts.Transaction.ReservationSum.{class_six_sum, class_three_sum, derive_reservation-sum}
use hosts.Transaction.Outcomes.{Outcome, execute_operation-Outcome}
use hosts.Transaction.RunOutcomes.{RunOutcome}
use hosts.Transaction.Budget.{PreparedWell, prepare-PreparedWell, prepare_unchanged}
use hosts.BoundPlan.{is_degenerate}
use hosts.Transaction.Commitment.{Commitment}
use hosts.Transaction.Panics.{prepare_never_panics}
use hosts.Transaction.Invariant.{IsWellFormed}
use hosts.Transaction.Calls.{run, step, commits, aborts, run-IsWellFormed}
use hosts.Transaction.Publication.{step_publishes}
use hosts.Transaction.Boundary.{BoundaryReached, committed-BoundaryReached}
use hosts.Transaction.Ending.{abort_idempotent, settled_stays}
use hosts.Transaction.Execution.{execute-RunOutcome, fake_published, fake-PublishesAtomically}
use hosts.Scenarios.World.{
  plan, operations, boundary, new, start, stalled, copy, alpha, beta, debug, to_prepared,
  to_executing, to_committed,
}

-- The plan prepares, executes and commits; prepared twice it is refused, and with no event
-- completed `commit` leaves it executing.
life :
    ((run fake to_prepared start).0.state ≡ prepared)
    × ((run fake to_executing start).0.state ≡ executing)
    × ((run fake to_committed start).0.state ≡ committed)
    × ((prepare fake 5 new new_fake).2 ≡ ok tt)
    × ((prepare fake 5 (run fake to_executing start).0 new_fake).2
        ≡ err (raised (prepare_invalid_state executing)))
    × ((step fake
          (commits debug 9 1)
          (run fake to_executing stalled).0
          (run fake to_executing stalled).1).0.state
        ≡ executing)
unfolding hosts.Base.Collections.get hosts.Base.Collections.insert hosts.Base.Collections.contains
    hosts.Base.Collections.add hosts.Base.Collections.extend hosts.Base.Collections.collect
    hosts.Base.Collections.collect_onto hosts.Base.Order.str_ord hosts.Base.Order.pair_ord
    hosts.Base.Order.key_ord hosts.BoundPlan.bindings_of hosts.BoundPlan.plan_receipt
    hosts.Identity.Device.device_ord hosts.Transaction.Coordinator.nanos_u64
    hosts.Transaction.Coordinator.fail hosts.Transaction.Coordinator.build_receipt
    hosts.Transaction.Execute.stage_all hosts.Transaction.Execute.record_events
    hosts.Transaction.Execute.execute_operation hosts.Transaction.Execute.execute_all
    hosts.Transaction.Execute.execute hosts.Transaction.Fake.fake_reserve
    hosts.Transaction.Fake.dispatch_events hosts.Transaction.Fake.fake_run_operation
    hosts.Transaction.Fake.fake_event_completed hosts.Transaction.Fake.fake_stage_write
    hosts.Transaction.Fake.fake_publish hosts.Transaction.Fake.fake_release
    hosts.Transaction.Finish.add_missing hosts.Transaction.Finish.missing_of
    hosts.Transaction.Finish.missing_barriers hosts.Transaction.Finish.missing_launches
    hosts.Transaction.Finish.missing_boundary_refs hosts.Transaction.Finish.staged_partitions
    hosts.Transaction.Finish.refresh hosts.Transaction.Finish.release_all
    hosts.Transaction.Finish.conclude hosts.Transaction.Finish.commit
    hosts.Transaction.Mirror.operation_ref_ord hosts.Transaction.Mirror.boundary_ref_ord
    hosts.Transaction.Mirror.event_ord hosts.Transaction.Operation.TransactionOperation-discrete
    hosts.Transaction.Operation.same_operation hosts.Transaction.Operation.operation_ref
    hosts.Transaction.Operation.partitions_of hosts.Transaction.Operation.byte_count_of
    hosts.Transaction.Operation.completed_events hosts.Transaction.Operation.staged_writes
    hosts.Transaction.Prepare.check_partitions hosts.Transaction.Prepare.check_topology
    hosts.Transaction.Prepare.index_operations hosts.Transaction.Prepare.find_operation
    hosts.Transaction.Prepare.check_barriers hosts.Transaction.Prepare.check_launches
    hosts.Transaction.Prepare.all_partitions hosts.Transaction.Prepare.referenced_partitions
    hosts.Transaction.Prepare.check_admitted hosts.Transaction.Prepare.check_budget
    hosts.Transaction.Prepare.check_budgets hosts.Transaction.Prepare.check_plan
    hosts.Transaction.Prepare.reserve_all hosts.Transaction.Prepare.prepare
    hosts.Transaction.Reservation.ledger_class hosts.Transaction.Reservation.class_six_bytes
    hosts.Transaction.Reservation.class_three_bytes hosts.Transaction.Reservation.charge
    hosts.Transaction.Reservation.charge_each hosts.Transaction.Reservation.charge_others
    hosts.Transaction.Reservation.charge_bytes hosts.Transaction.Reservation.charge_operation
    hosts.Transaction.Reservation.charge_operations hosts.Transaction.Reservation.derive_reservation
    hosts.Transaction.Reservation.insert_writes hosts.Transaction.Reservation.insert_declared
    hosts.Transaction.Reservation.derive_declared_write_set native.Mathlib.Decide.ℕ_discrete
    hosts.Transaction.Fake.unreserve hosts.Partition.Receipt.new_receipt
life = (refl, refl, refl, refl, refl, refl)

abbrev reason : Str
reason = bytes "stop"

new_is_made : new_transaction (bytes "tx") plan operations boundary ≡ ok new
unfolding new_transaction hosts.BoundPlan.is_degenerate
new_is_made = refl

run-IsWellFormed_example : IsWellFormed (run fake to_committed start).0
run-IsWellFormed_example =
    run-IsWellFormed fake (bytes "tx") plan operations boundary new new_fake to_committed
      new_is_made

execute-RunOutcome_example :
    let s = run fake to_prepared start in
    (t' : ExecutionTransaction) × RunOutcome fake s.0.operations
      (record (s.0) { state = executing })
      s.1
      t'
      (execute fake 7 s.0 s.1).1
      (execute fake 7 s.0 s.1).2
    × ((execute fake 7 s.0 s.1).0 ≡ with_execute_time fake 7 t')
execute-RunOutcome_example =
    execute-RunOutcome fake 7 (run fake to_prepared start).0 (run fake to_prepared start).1
      (run-IsWellFormed fake (bytes "tx") plan operations boundary new new_fake to_prepared
        new_is_made)
      life.0

step_publishes_example :
    let s = run fake to_executing stalled in
    fake_published (step fake (commits debug 9 1) s.0 s.1).1 ≡ fake_published s.1
step_publishes_example =
    step_publishes fake fake_published fake-PublishesAtomically (commits debug 9 1)
      (run fake to_executing stalled).0 (run fake to_executing stalled).1
      (λ h. ground (arith, life.5))

prepare-PreparedWell_example : PreparedWell new (prepare fake 5 new new_fake).0
prepare-PreparedWell_example = prepare-PreparedWell fake 5 new new_fake life.3

prepare_unchanged_example :
    (prepare fake 5 (run fake to_executing start).0 new_fake).0 ≡ (run fake to_executing start).0
prepare_unchanged_example =
    prepare_unchanged fake 5 (run fake to_executing start).0 new_fake
      (raised (prepare_invalid_state executing)) life.4

committed-BoundaryReached_example : BoundaryReached (run fake to_committed start).0
committed-BoundaryReached_example =
    committed-BoundaryReached (run fake to_committed start).0
      (run-IsWellFormed fake (bytes "tx") plan operations boundary new new_fake to_committed
        new_is_made)
      life.2

abort_idempotent_example :
    let r = abort fake 3 reason (run fake to_executing start).0 (run fake to_executing start).1 in
    abort fake 4 (bytes "again") r.0 r.1 ≡ r
abort_idempotent_example =
    abort_idempotent fake 3 4 reason (bytes "again") (run fake to_executing start).0
      (run fake to_executing start).1
      (run-IsWellFormed fake (bytes "tx") plan operations boundary new new_fake to_executing
        new_is_made)
      (ground (arith, life.1))

settled_stays_example :
    let s = run fake to_committed start in step fake (aborts 3 reason) s.0 s.1 ≡ s
settled_stays_example =
    settled_stays fake (aborts 3 reason) (run fake to_committed start).0
      (run fake to_committed start).1 (ground (arith, life.2))

derive_reservation-sum_example :
    (contains alpha (alpha ∷ beta ∷ []) ≡ false
      → get alpha (derive_reservation operations (alpha ∷ beta ∷ [])) ≡ none)
    × (contains alpha (alpha ∷ beta ∷ []) ≡ true
        → (r : ReservationRecord) × (get alpha (derive_reservation operations (alpha ∷ beta ∷ []))
            ≡ some r)
          × (class_six_bytes r ≡ wrap (class_six_sum alpha operations))
          × (class_three_bytes r ≡ wrap (class_three_sum alpha operations)))
derive_reservation-sum_example = derive_reservation-sum operations (alpha ∷ beta ∷ []) alpha

execute_operation-Outcome_example :
    let s = run fake to_executing start in
    let r = execute_operation fake (transfer copy) s.0 s.1 in
    Outcome fake (transfer copy) s.0 s.1 r.0 r.1 r.2
execute_operation-Outcome_example =
    execute_operation-Outcome fake (transfer copy) (run fake to_executing start).0
      (run fake to_executing start).1

new_is_distributed : is_degenerate plan ≡ false
unfolding is_degenerate
new_is_distributed = refl

prepare_never_panics_example : (prepare fake 5 new new_fake).2 ≢ err panicked
prepare_never_panics_example = prepare_never_panics fake 5 new new_fake new_is_distributed
