-- ===== src/Transaction/RunOutcomes.antt =====
-- What `execute` leaves behind
-- (crates/host-coordinator/src/execution_transaction/transaction.rs): the whole plan in order, or a
-- proper prefix of it and the failure that stopped it.
use mathlib.Core.List.{append_assoc, append-nil}
use hosts.Base.{
  ℕ, Bool, true, false, List, [], ◌∷◌, ◌++◌, map, some, ok, err, raised, get_elem?, ◌≡◌, refl, sym,
  ap, ◌∙◌, inl, inr,
}
use hosts.Transaction.Mirror.{TransactionOperation, OperationEvent, operation_ref_ord}
use hosts.Transaction.Operation.{completed_events, same_operation, TransactionOperation-discrete}
use hosts.Transaction.Reservation.{WriteSet, insert_declared}
use hosts.Transaction.State.{BackendError, backend_failure, execute_backend}
use hosts.Transaction.Backend.{DeviceExecutionBackend}
use hosts.Transaction.Coordinator.{ExecutionTransaction, fail}
use hosts.Transaction.Execute.{
  Executed, is_executing, execute_operation, execute_all, run_and_stage, record_events,
}
use hosts.Transaction.Index.{IsIndexed}
use hosts.Transaction.Answers.{record_events-Noted, Carried, Broken, CarriedAll}
use hosts.Transaction.Outcomes.{Ran, executed_record, completed_with, run_and_stage-Ran}

-- The transaction after the operations, with what they staged and the events found completed.
abbrev pub ran :
    List TransactionOperation
    → WriteSet
    → List OperationEvent
    → ExecutionTransaction
    → ExecutionTransaction
ran done set events t = record t {
  staged_write_set = set;
  executed_operations = t.executed_operations ++ map executed_record done;
  completed_events = events;
}

-- Each operation stands in the plan.
abbrev pub AllPlanned : List TransactionOperation → List TransactionOperation → Type 0
AllPlanned plan [] = Unit
AllPlanned plan (op ∷ ops) = ((i : ℕ) × (get_elem? plan i ≡ some op)) × AllPlanned plan ops

same_operation_self : (op : TransactionOperation) → same_operation op op ≡ true
unfolding same_operation
same_operation_self op =
    elim (TransactionOperation-discrete op op)
      as (λ x. ◌≡◌ {A = Bool} (elim x [ yes e ↦ true | no n ↦ false ]) true) [
        | yes e ↦ refl
        | no n ↦ absurd (n refl)
      ]

module _ {B : Type 0} (d : DeviceExecutionBackend B) where
  -- What a run of the operations leaves and answers, with what the backend answered to each.
  pub data RunOutcome (ops : List TransactionOperation) (t : ExecutionTransaction) (b : B)
      (t' : ExecutionTransaction) (b' : B) (r : Executed) : Type 0 where
    ran_all :
        (events : List OperationEvent)
        → CarriedAll d ops b t.completed_events b' events
        → r ≡ ok tt
        → t' ≡ ran ops (insert_declared ops t.staged_write_set) events t
        → RunOutcome ops t b t' b' r
    stopped :
        (done : List TransactionOperation) (op : TransactionOperation)
        (rest : List TransactionOperation) (e : BackendError) (set : WriteSet)
        (events : List OperationEvent) (before : B)
        → ops ≡ done ++ (op ∷ rest)
        → CarriedAll d done b t.completed_events before events
        → Broken d op (insert_declared done t.staged_write_set) before e set b'
        → r ≡ err (raised (execute_backend e))
        → t' ≡ fail (backend_failure e) (ran done set events t)
        → RunOutcome ops t b t' b' r

  planned_runs :
      (op : TransactionOperation) (t : ExecutionTransaction) (b : B)
      → is_executing t.state ≡ true
      → IsIndexed t.operation_keys t.operations
      → (i : ℕ) × (get_elem? t.operations i ≡ some op)
      → execute_operation d op t b ≡ run_and_stage d op t (d.run_operation op b)
  unfolding execute_operation
  planned_runs op t b s keys (i, g) = rw (s, keys i op g, g, same_operation_self op)

  planned-Ran :
      (op : TransactionOperation) (t : ExecutionTransaction) (b : B)
      → is_executing t.state ≡ true
      → IsIndexed t.operation_keys t.operations
      → (i : ℕ) × (get_elem? t.operations i ≡ some op)
      → let r = execute_operation d op t b in Ran d op t b r.0 r.1 r.2
  planned-Ran op t b s keys g =
      rw (planned_runs op t b s keys g) (run_and_stage-Ran d op t b (d.run_operation op b) refl)

  ran_cons :
      (op : TransactionOperation) (done : List TransactionOperation)
      (events later : List OperationEvent) (set : WriteSet) (t : ExecutionTransaction)
      → ran done set later (completed_with op events t) ≡ ran (op ∷ done) set later t
  ran_cons op done events later set t =
      ap
        (λ x. record t {
          staged_write_set = set;
          executed_operations = x;
          completed_events = later;
        })
        (append_assoc t.executed_operations (executed_record op ∷ []) (map executed_record done))

  -- One operation in front of a run.
  extend_run :
      (op : TransactionOperation) (ops : List TransactionOperation) (t : ExecutionTransaction)
      (b next : B) (t' : ExecutionTransaction) (b' : B) (r : Executed)
      → Carried d op b next
      → RunOutcome ops
          (completed_with op (record_events d (completed_events op) next t.completed_events) t)
          next
          t'
          b'
          r
      → RunOutcome (op ∷ ops) t b t' b' r
  unfolding insert_declared
  extend_run op ops t b next t' b' r c (ran_all later cs e p) =
      ran_all later
        (next, c, record_events-Noted d (completed_events op) next t.completed_events, cs) e
        (p
          ∙ ran_cons op ops (record_events d (completed_events op) next t.completed_events) later _
              t)
  extend_run op ops t b next t' b' r c (stopped done o rest x set later before q cs k e p) =
      stopped (op ∷ done) o rest x set later before (ap (◌∷◌ op) q)
        (next, c, record_events-Noted d (completed_events op) next t.completed_events, cs) k e
        (p
          ∙ ap (fail (backend_failure x)) (
              ran_cons op done (record_events d (completed_events op) next t.completed_events) later
                set t))

  pub execute_all-RunOutcome :
      (ops : List TransactionOperation) (t : ExecutionTransaction) (b : B)
      → is_executing t.state ≡ true
      → IsIndexed t.operation_keys t.operations
      → AllPlanned t.operations ops
      → let r = execute_all d ops t b in RunOutcome ops t b r.0 r.1 r.2
  unfolding execute_all insert_declared
  execute_all-RunOutcome [] t b s keys p =
      ran_all t.completed_events (refl, refl) refl
        (sym (ap (λ x. record t { executed_operations = x }) (append-nil t.executed_operations)))
  execute_all-RunOutcome (op ∷ ops) t b s keys p = elim (planned-Ran op t b s keys p.0) [
    | inl (c, e, q) ↦
        let next = (execute_operation d op t b).1 in
        rw (e, q, execute_all)
          (extend_run op ops t b next _ _ _ c (
            execute_all-RunOutcome ops
              (completed_with op (record_events d (completed_events op) next t.completed_events) t)
              next s keys p.1))
    | inr (x, set, k, e, q) ↦
        rw (e, q, execute_all)
          (stopped [] op ops x set t.completed_events b refl (refl, refl) k refl
            (ap
              (λ y.
                fail (backend_failure x)
                  (record t { staged_write_set = set; executed_operations = y }))
              (sym (append-nil t.executed_operations))))
  ]
