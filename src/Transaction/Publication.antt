-- ===== src/Transaction/Publication.antt =====
-- Publication is atomic and happens only in a commit that goes through
-- (crates/host-coordinator/src/execution_transaction/transaction.rs).
use hosts.Base.{
  ℕ, Bool, true, false, List, [], ◌∷◌, Option, none, some, Str, err, ◌≡◌, refl, sym, ap, ◌∙◌, inl,
  inr, Bool-cases, Option-cases, Result-cases, if◌then◌else◌, raised, get_elem?,
}
use hosts.BoundPlan.{LogicalPartitionId}
use hosts.Base.Collections.{get, difference}
use hosts.Base.Order.{str_ord}
use hosts.Transaction.Mirror.{TransactionOperation, StagedWrite, BoundaryRef, operation_ref_ord}
use hosts.Transaction.Operation.{same_operation, operation_ref, staged_writes}
use hosts.Transaction.Reservation.{Reservation}
use hosts.Transaction.State.{
  BackendError, TransactionState, TransactionFailure, fresh, prepared, executing, committed, failed,
  aborted, commit_invalid_state,
}
use hosts.Transaction.Backend.{DeviceExecutionBackend, PublishesAtomically}
use hosts.Transaction.Coordinator.{ExecutionTransaction, build_receipt}
use hosts.Transaction.Prepare.{Plan, prepare, check_plan, reserve_all, hold}
use hosts.Transaction.Execute.{
  stage_all, run_and_stage, after_staging, dispatch, look_up, is_executing, is_prepared, execute,
  execute_all, execute_operation,
}
use hosts.Transaction.Finish.{
  reserved_partitions, staged_partitions, release_all, retire_all, conclude, commit, abort,
  abort_in, tear_down, if_reached, publish_or_fail, refreshed, missing_boundary_refs,
}
use hosts.Transaction.Calls.{Call, prepares, executes, executes_one, commits, aborts, step}

module _ {B : Type 0} (d : DeviceExecutionBackend B) {A : Type 0} (published : B → A)
    (law : PublishesAtomically d published) where
  reserve_publishes : (r : Reservation) (b : B) → published (reserve_all d r b).0 ≡ published b
  unfolding reserve_all
  reserve_publishes [] b = refl
  reserve_publishes ((p, r) ∷ rs) b = elim (Option-cases (d.reserve p r b).1) [
    | inl e ↦
        rw (reserve_all, e) (reserve_publishes rs (d.reserve p r b).0 ∙ law.reserve_publishes p r b)
    | inr (x, e) ↦ rw (reserve_all, e) (law.reserve_publishes p r b)
  ]

  hold_publishes :
      (plan : Plan) (nanos : ℕ) (t : ExecutionTransaction) (x : B × Option BackendError)
      → (hold d plan nanos t x).1 ≡ x.0
  hold_publishes plan nanos t (b, none) = refl
  hold_publishes plan nanos t (b, some e) = refl

  prepare_publishes :
      (nanos : ℕ) (t : ExecutionTransaction) (b : B)
      → published (prepare d nanos t b).1 ≡ published b
  unfolding prepare
  prepare_publishes nanos t b = elim (Result-cases (check_plan t)) [
    | inl (plan, e) ↦
        rw (prepare, e, hold_publishes plan nanos t (reserve_all d plan.1 b))
          (reserve_publishes plan.1 b)
    | inr (x, e) ↦ rw (prepare, e) refl
  ]

  stage_publishes :
      (ws : List StagedWrite) (t : ExecutionTransaction) (b : B)
      → published (stage_all d ws t b).1 ≡ published b
  unfolding stage_all
  stage_publishes [] t b = refl
  stage_publishes (w ∷ ws) t b = elim (Option-cases (d.stage_write w b).1) [
    | inl e ↦
        rw (stage_all, e) (stage_publishes ws _ (d.stage_write w b).0 ∙ law.stage_publishes w b)
    | inr (x, e) ↦ rw (stage_all, e) (law.stage_publishes w b)
  ]

  after_staging_publishes :
      (op : TransactionOperation) (x : ExecutionTransaction × B × Option BackendError)
      → (after_staging d op x).1 ≡ x.1
  after_staging_publishes op (t, b, none) = refl
  after_staging_publishes op (t, b, some e) = refl

  run_publishes :
      (op : TransactionOperation) (t : ExecutionTransaction) (x : B × Option BackendError)
      → published (run_and_stage d op t x).1 ≡ published x.0
  run_publishes op t (b, some e) = refl
  run_publishes op t (b, none) =
      ap published (after_staging_publishes op (stage_all d (staged_writes op) t b))
      ∙ stage_publishes (staged_writes op) t b

  dispatch_publishes :
      (op : TransactionOperation) (t : ExecutionTransaction) (b : B)
      (found : Option TransactionOperation)
      → published (dispatch d op t b found).1 ≡ published b
  dispatch_publishes op t b none = refl
  dispatch_publishes op t b (some o) = elim (Bool-cases (same_operation o op)) [
    | inl e ↦ rw e (run_publishes op t (d.run_operation op b) ∙ law.run_publishes op b)
    | inr e ↦ rw e refl
  ]

  look_up_publishes :
      (op : TransactionOperation) (t : ExecutionTransaction) (b : B) (index : Option ℕ)
      → published (look_up d op t b index).1 ≡ published b
  look_up_publishes op t b none = refl
  look_up_publishes op t b (some i) = dispatch_publishes op t b (get_elem? t.operations i)

  execute_one_publishes :
      (op : TransactionOperation) (t : ExecutionTransaction) (b : B)
      → published (execute_operation d op t b).1 ≡ published b
  unfolding execute_operation
  execute_one_publishes op t b = elim (Bool-cases (is_executing t.state)) [
    | inl e ↦
        rw (execute_operation, e)
          (look_up_publishes op t b (get (operation_ref op) t.operation_keys))
    | inr e ↦ rw (execute_operation, e) refl
  ]

  execute_all_publishes :
      (ops : List TransactionOperation) (t : ExecutionTransaction) (b : B)
      → published (execute_all d ops t b).1 ≡ published b
  unfolding execute_all
  execute_all_publishes [] t b = refl
  execute_all_publishes (op ∷ ops) t b = elim (Result-cases (execute_operation d op t b).2) [
    | inl (u, e) ↦
        rw (execute_all, e)
          (execute_all_publishes ops (execute_operation d op t b).0 (execute_operation d op t b).1
            ∙ execute_one_publishes op t b)
    | inr (x, e) ↦ rw (execute_all, e) (execute_one_publishes op t b)
  ]

  execute_publishes :
      (nanos : ℕ) (t : ExecutionTransaction) (b : B)
      → published (execute d nanos t b).1 ≡ published b
  unfolding execute
  execute_publishes nanos t b = elim (Bool-cases (is_prepared t.state)) [
    | inl e ↦
        rw (execute, e) (execute_all_publishes t.operations (record t { state = executing }) b)
    | inr e ↦ rw (execute, e) refl
  ]

  release_publishes :
      (ps : List LogicalPartitionId) (b : B) → published (release_all d ps b) ≡ published b
  unfolding release_all
  release_publishes [] b = refl
  release_publishes (p ∷ ps) b = release_publishes ps (d.release p b) ∙ law.release_publishes p b

  retire_publishes :
      (f : TransactionFailure) (ps : List LogicalPartitionId) (b : B)
      → published (retire_all d f ps b) ≡ published b
  unfolding retire_all
  retire_publishes f [] b = refl
  retire_publishes f (p ∷ ps) b =
      retire_publishes f ps (d.retire p f b) ∙ law.retire_publishes p f b

  tear_down_publishes :
      (nanos : ℕ) (f : TransactionFailure) (t : ExecutionTransaction) (b : B)
      → published (tear_down d nanos f t b).1 ≡ published b
  unfolding tear_down build_receipt
  tear_down_publishes nanos f t b =
      let staged = staged_partitions t in
      release_publishes (difference (reserved_partitions t.reservation) staged)
        (retire_all d f staged b)
      ∙ retire_publishes f staged b

  abort_in_publishes :
      (s : TransactionState) (nanos : ℕ) (reason : Str) (t : ExecutionTransaction) (b : B)
      → published (abort_in d s nanos reason t b).1 ≡ published b
  abort_in_publishes fresh nanos reason t b = tear_down_publishes nanos _ t b
  abort_in_publishes prepared nanos reason t b = tear_down_publishes nanos _ t b
  abort_in_publishes executing nanos reason t b = tear_down_publishes nanos _ t b
  abort_in_publishes (failed f) nanos reason t b = tear_down_publishes nanos _ t b
  abort_in_publishes committed nanos reason t b = refl
  abort_in_publishes (aborted f) nanos reason t b = refl

  publish_or_fail_publishes :
      (debug : BackendError → Str) (nanos ordinal : ℕ) (t : ExecutionTransaction) (b : B)
      (x : B × Option BackendError)
      → d.publish b ≡ x
      → ¬ ((publish_or_fail d debug nanos ordinal t x).0.state ≡ committed)
      → published (publish_or_fail d debug nanos ordinal t x).1 ≡ published b
  unfolding conclude build_receipt
  publish_or_fail_publishes debug nanos ordinal t b (b', some e) h n =
      ap (λ x. published x.0) (sym h) ∙ law.failed_publishes b e (ap (λ x. x.1) h)
  publish_or_fail_publishes debug nanos ordinal t b (b', none) h n = absurd (n refl)

  if_reached_publishes :
      (debug : BackendError → Str) (nanos ordinal : ℕ) (t : ExecutionTransaction) (b : B)
      (missing : List BoundaryRef)
      → ¬ ((if_reached d debug nanos ordinal t b missing).0.state ≡ committed)
      → published (if_reached d debug nanos ordinal t b missing).1 ≡ published b
  if_reached_publishes debug nanos ordinal t b [] n =
      publish_or_fail_publishes debug nanos ordinal t b (d.publish b) refl n
  if_reached_publishes debug nanos ordinal t b (r ∷ rs) n = refl

  commit_publishes :
      (debug : BackendError → Str) (nanos ordinal : ℕ) (t : ExecutionTransaction) (b : B)
      → ¬ ((commit d debug nanos ordinal t b).0.state ≡ committed)
      → published (commit d debug nanos ordinal t b).1 ≡ published b
  unfolding commit
  commit_publishes debug nanos ordinal t b n = commit_by (is_executing t.state) n
    where
      commit_by :
          (x : Bool)
          → let r =
              if x
              then if_reached d debug nanos ordinal
                  (refreshed d t b)
                  b
                  (missing_boundary_refs (refreshed d t b))
              else (t, b, err (raised (commit_invalid_state t.state))) in
            ¬ (r.0.state ≡ committed) → published r.1 ≡ published b
      commit_by true n =
          if_reached_publishes debug nanos ordinal (refreshed d t b) b
            (missing_boundary_refs (refreshed d t b)) n
      commit_by false n = refl

  -- No call changes what the backend has published, unless it leaves the transaction committed.
  pub step_publishes :
      (c : Call) (t : ExecutionTransaction) (b : B)
      → ¬ ((step d c t b).0.state ≡ committed)
      → published (step d c t b).1 ≡ published b
  unfolding abort
  step_publishes (prepares nanos) t b n = prepare_publishes nanos t b
  step_publishes (executes nanos) t b n = execute_publishes nanos t b
  step_publishes (executes_one op) t b n = execute_one_publishes op t b
  step_publishes (commits debug nanos ordinal) t b n = commit_publishes debug nanos ordinal t b n
  step_publishes (aborts nanos reason) t b n = abort_in_publishes t.state nanos reason t b
