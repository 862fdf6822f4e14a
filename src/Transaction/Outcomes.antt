-- ===== src/Transaction/Outcomes.antt =====
-- What one dispatched operation leaves behind, on each of its branches
-- (crates/host-coordinator/src/execution_transaction/transaction.rs, `execute_operation`).
use hosts.Base.{
  ℕ, Bool, true, false, List, [], ◌∷◌, ◌++◌, Option, none, some, ok, err, raised, panicked,
  get_elem?, ◌≡◌, ◌≢◌, refl, sym, ◌⊎◌, inl, inr, arith, Bool-cases, ap, ◌∙◌,
}
use hosts.Base.Collections.{get}
use hosts.Base.Order.{str_ord}
use hosts.Transaction.Mirror.{operation_ref_ord, TransactionOperation, OperationEvent}
use hosts.Transaction.Operation.{
  operation_ref, same_operation, TransactionOperation-discrete, byte_count_of, completed_events,
  staged_writes,
}
use hosts.Transaction.Reservation.{WriteSet, insert_writes}
use hosts.Transaction.State.{
  BackendError, backend_failure, execute_invalid_state, operation_outside_snapshot, execute_backend,
}
use hosts.Transaction.Backend.{DeviceExecutionBackend}
use hosts.Transaction.Receipt.{ExecutedOperationRecord}
use hosts.Transaction.Answers.{Noted, record_events-Noted, Carried, Broken}
use hosts.Transaction.Coordinator.{ExecutionTransaction, fail}
use hosts.Transaction.Execute.{
  Executed, record_events, execute_operation, is_executing, look_up, dispatch, run_and_stage,
  after_staging, finish_operation,
}
use hosts.Transaction.Staging.{staged_with, Staging, stage_all-Staging}

abbrev pub executed_record : TransactionOperation → ExecutedOperationRecord
executed_record op = record { operation = op; byte_count = byte_count_of op }

-- The transaction after an operation that went through, with the events that it left completed.
abbrev pub completed_with :
    TransactionOperation → List OperationEvent → ExecutionTransaction → ExecutionTransaction
completed_with op events t = record t {
  staged_write_set = insert_writes (staged_writes op) t.staged_write_set;
  executed_operations = t.executed_operations ++ executed_record op ∷ [];
  completed_events = events;
}

-- An operation of the plan.
abbrev pub Planned : List TransactionOperation → TransactionOperation → Type 0
Planned plan op = (i : ℕ) × (get_elem? plan i ≡ some op)

eq_of_same_operation : (a b : TransactionOperation) → same_operation a b ≡ true → a ≡ b
unfolding same_operation
eq_of_same_operation a b h =
    elim (TransactionOperation-discrete a b)
        as (λ x. ◌≡◌ {A = Bool} (elim x [ yes e ↦ true | no n ↦ false ]) true → a ≡ b) [
          | yes e ↦ λ h. e
          | no n ↦ λ h. absurd (ground arith)
        ]
      h

ne_of_other_operation : (a b : TransactionOperation) → same_operation a b ≡ false → a ≢ b
unfolding same_operation
ne_of_other_operation a b h =
    elim (TransactionOperation-discrete a b)
        as (λ x. ◌≡◌ {A = Bool} (elim x [ yes e ↦ true | no n ↦ false ]) false → a ≢ b) [
          | yes e ↦ λ h. absurd (ground arith)
          | no n ↦ λ h. n
        ]
      h

module _ {B : Type 0} (d : DeviceExecutionBackend B) where
  -- What a dispatched operation leaves and answers, with the condition of each branch.
  pub data Outcome (op : TransactionOperation) (t : ExecutionTransaction) (b : B)
      (t' : ExecutionTransaction) (b' : B) (r : Executed) : Type 0 where
    not_executing :
        is_executing t.state ≡ false
        → r ≡ err (raised (execute_invalid_state t.state))
        → t' ≡ t
        → b' ≡ b
        → Outcome op t b t' b' r
    not_indexed :
        is_executing t.state ≡ true
        → get (operation_ref op) t.operation_keys ≡ none
        → r ≡ err (raised (operation_outside_snapshot (operation_ref op)))
        → t' ≡ t
        → b' ≡ b
        → Outcome op t b t' b' r
    out_of_range :
        (i : ℕ)
        → is_executing t.state ≡ true
        → get (operation_ref op) t.operation_keys ≡ some i
        → get_elem? t.operations i ≡ none
        → r ≡ err panicked
        → t' ≡ t
        → b' ≡ b
        → Outcome op t b t' b' r
    other_facts :
        (i : ℕ) (found : TransactionOperation)
        → is_executing t.state ≡ true
        → get (operation_ref op) t.operation_keys ≡ some i
        → get_elem? t.operations i ≡ some found
        → found ≢ op
        → r ≡ err (raised (operation_outside_snapshot (operation_ref op)))
        → t' ≡ t
        → b' ≡ b
        → Outcome op t b t' b' r
    broke :
        (i : ℕ) (e : BackendError) (set : WriteSet)
        → is_executing t.state ≡ true
        → get (operation_ref op) t.operation_keys ≡ some i
        → get_elem? t.operations i ≡ some op
        → Broken d op t.staged_write_set b e set b'
        → r ≡ err (raised (execute_backend e))
        → t' ≡ fail (backend_failure e) (staged_with t set)
        → Outcome op t b t' b' r
    went_through :
        (i : ℕ)
        → is_executing t.state ≡ true
        → get (operation_ref op) t.operation_keys ≡ some i
        → get_elem? t.operations i ≡ some op
        → Carried d op b b'
        → r ≡ ok tt
        → Noted d (completed_events op) b' t.completed_events t'.completed_events
        → t' ≡ completed_with op (record_events d (completed_events op) b' t.completed_events) t
        → Outcome op t b t' b' r

  -- An operation of the plan is carried out or breaks.
  abbrev pub Ran :
      TransactionOperation → ExecutionTransaction → B → ExecutionTransaction → B → Executed → Type 0
  Ran op t b t' b' r =
      (Carried d op b b'
        × (r ≡ ok tt)
        × (t' ≡ completed_with op (record_events d (completed_events op) b' t.completed_events) t))
      ⊎ ((e : BackendError) × (set : WriteSet) × Broken d op t.staged_write_set b e set b'
          × (r ≡ err (raised (execute_backend e)))
          × (t' ≡ fail (backend_failure e) (staged_with t set)))

  Ran-Outcome :
      {op : TransactionOperation} {t t' : ExecutionTransaction} {b b' : B} {r : Executed} (i : ℕ)
      → is_executing t.state ≡ true
      → get (operation_ref op) t.operation_keys ≡ some i
      → get_elem? t.operations i ≡ some op
      → Ran op t b t' b' r
      → Outcome op t b t' b' r
  Ran-Outcome {op = op} {t = t} {b' = b'} i s k g (inl (c, e, q)) =
      went_through i s k g c e
        (rw q (record_events-Noted d (completed_events op) b' t.completed_events)) q
  Ran-Outcome i s k g (inr (x, set, c, e, q)) = broke i x set s k g c e q

  after_staging-Ran :
      (op : TransactionOperation) (t : ExecutionTransaction) (b : B)
      (x : ExecutionTransaction × B × Option BackendError)
      → (d.run_operation op b).1 ≡ none
      → Staging d (staged_writes op) t (d.run_operation op b).0 x
      → let r = after_staging d op x in Ran op t b r.0 r.1 r.2
  after_staging-Ran op t b (t', b', none) h (a, q) =
      inl ((h, a), refl, ap (λ x. finish_operation d op x b') q)
  after_staging-Ran op t b (t', b', some e) h (set, u, q) = inr (e, set, inr (h, u), refl, q)

  pub run_and_stage-Ran :
      (op : TransactionOperation) (t : ExecutionTransaction) (b : B) (x : B × Option BackendError)
      → d.run_operation op b ≡ x
      → let r = run_and_stage d op t x in Ran op t b r.0 r.1 r.2
  run_and_stage-Ran op t b (b', none) h =
      let answer : (d.run_operation op b).1 ≡ none = ap (λ x. x.1) h in
      let left : (d.run_operation op b).0 ≡ b' = ap (λ x. x.0) h in
      after_staging-Ran op t b _ answer (rw left (stage_all-Staging d (staged_writes op) t b'))
  run_and_stage-Ran op t b (b', some e) h =
      inr (e, t.staged_write_set, inl (ap (λ x. x.1) h, sym (ap (λ x. x.0) h), refl), refl, refl)

  dispatch-Outcome :
      (op : TransactionOperation) (t : ExecutionTransaction) (b : B) (i : ℕ)
      (found : Option TransactionOperation)
      → is_executing t.state ≡ true
      → get (operation_ref op) t.operation_keys ≡ some i
      → get_elem? t.operations i ≡ found
      → let r = dispatch d op t b found in Outcome op t b r.0 r.1 r.2
  dispatch-Outcome op t b i none s k g = out_of_range i s k g refl refl refl
  dispatch-Outcome op t b i (some o) s k g = elim (Bool-cases (same_operation o op)) [
    | inl e ↦ rw e (
        Ran-Outcome i s k (g ∙ ap some (eq_of_same_operation o op e))
          (run_and_stage-Ran op t b (d.run_operation op b) refl))
    | inr e ↦ rw e (other_facts i o s k g (ne_of_other_operation o op e) refl refl refl)
  ]

  look_up-Outcome :
      (op : TransactionOperation) (t : ExecutionTransaction) (b : B) (index : Option ℕ)
      → is_executing t.state ≡ true
      → get (operation_ref op) t.operation_keys ≡ index
      → let r = look_up d op t b index in Outcome op t b r.0 r.1 r.2
  look_up-Outcome op t b none s k = not_indexed s k refl refl refl
  look_up-Outcome op t b (some i) s k =
      dispatch-Outcome op t b i (get_elem? t.operations i) s k refl

  -- A dispatched operation leaves everything as it is and is refused: by its state when the
  -- transaction is not executing, and as outside the snapshot when its reference is not indexed or
  -- the operation at the index is another one; an index out of range panics. Otherwise the operation
  -- at the index is the dispatched one and reaches the backend. When the backend runs it and takes
  -- all its writes, the answer is `ok`, the writes are staged, its record is appended and the
  -- events that the backend confirms are recorded. When the backend answers an error to it or to one of its
  -- writes, that error is the answer and the transaction's failure, and only the writes taken
  -- before are staged.
  pub execute_operation-Outcome :
      (op : TransactionOperation) (t : ExecutionTransaction) (b : B)
      → let r = execute_operation d op t b in Outcome op t b r.0 r.1 r.2
  unfolding execute_operation
  execute_operation-Outcome op t b = elim (Bool-cases (is_executing t.state)) [
    | inl e ↦ rw e (look_up-Outcome op t b (get (operation_ref op) t.operation_keys) e refl)
    | inr e ↦ rw e (not_executing e refl refl refl)
  ]
