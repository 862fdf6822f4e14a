-- ===== src/Transaction/Execute.antt =====
-- `ExecutionTransaction::{execute, execute_operation}`
-- (crates/host-coordinator/src/execution_transaction/transaction.rs).
use hosts.Base.{
  ℕ, Bool, true, false, List, [], ◌∷◌, ◌++◌, Option, none, some, Result, ok, err, Raise, raised,
  panicked, get_elem?, if◌then◌else◌,
}
use hosts.Base.Collections.{get, insert, add}
use hosts.Base.Order.{nat_ord, str_ord}
use hosts.Transaction.Mirror.{
  TransactionOperation, OperationEvent, StagedWrite, operation_ref_ord, event_ord,
}
use hosts.Transaction.Operation.{
  operation_ref, same_operation, byte_count_of, completed_events, staged_writes,
}
use hosts.Transaction.State.{
  TransactionState, fresh, prepared, executing, committed, failed, aborted, BackendError,
  backend_failure, ExecuteError, execute_invalid_state, operation_outside_snapshot, execute_backend,
}
use hosts.Transaction.Backend.{DeviceExecutionBackend}
use hosts.Transaction.Coordinator.{ExecutionTransaction, fail, nanos_u64}

abbrev pub Executed : Type 0
Executed = Result (Unit {0}) (Raise ExecuteError)

abbrev pub is_executing : TransactionState → Bool
is_executing executing = true
is_executing fresh = false
is_executing prepared = false
is_executing committed = false
is_executing (failed f) = false
is_executing (aborted f) = false

abbrev pub is_prepared : TransactionState → Bool
is_prepared prepared = true
is_prepared fresh = false
is_prepared executing = false
is_prepared committed = false
is_prepared (failed f) = false
is_prepared (aborted f) = false

module _ {B : Type 0} (d : DeviceExecutionBackend B) where
  -- Stage the writes in turn, recording each that the backend takes; a refusal fails the
  -- transaction.
  unfoldable pub stage_all :
      List StagedWrite → ExecutionTransaction → B → ExecutionTransaction × B × Option BackendError
  unfolding fail insert
  stage_all [] t b = (t, b, none)
  stage_all (w ∷ ws) t b =
      let rest =
        stage_all ws (record t { staged_write_set = insert w.output_ref w t.staged_write_set })
          (d.stage_write w b).0 in
      elim (d.stage_write w b).1 [
        | some e ↦ (fail (backend_failure e) t, (d.stage_write w b).0, some e)
        | none ↦ rest
      ]

  -- The events that the backend confirms join the completed ones.
  unfoldable pub record_events : List OperationEvent → B → List OperationEvent → List OperationEvent
  unfolding add
  record_events [] b done = done
  record_events (e ∷ es) b done =
      record_events es b (if d.event_completed e b then add e done else done)

  abbrev pub finish_operation :
      TransactionOperation → ExecutionTransaction → B → ExecutionTransaction
  finish_operation op t b = record t {
    executed_operations =
        t.executed_operations ++ record { operation = op; byte_count = byte_count_of op } ∷ [];
    completed_events = record_events (completed_events op) b t.completed_events;
  }

  abbrev pub after_staging :
      TransactionOperation
      → ExecutionTransaction × B × Option BackendError
      → ExecutionTransaction × B × Executed
  after_staging op (t, b, some e) = (t, b, err (raised (execute_backend e)))
  after_staging op (t, b, none) = (finish_operation op t b, b, ok tt)

  abbrev pub run_and_stage :
      TransactionOperation
      → ExecutionTransaction
      → B × Option BackendError
      → ExecutionTransaction × B × Executed
  run_and_stage op t (b, some e) = (fail (backend_failure e) t, b, err (raised (execute_backend e)))
  run_and_stage op t (b, none) = after_staging op (stage_all (staged_writes op) t b)

  -- `operations[index]` panics out of range; an operation with other facts is refused.
  abbrev pub dispatch :
      TransactionOperation
      → ExecutionTransaction
      → B
      → Option TransactionOperation
      → ExecutionTransaction × B × Executed
  dispatch op t b none = (t, b, err panicked)
  dispatch op t b (some found) =
      if same_operation found op
      then run_and_stage op t (d.run_operation op b)
      else (t, b, err (raised (operation_outside_snapshot (operation_ref op))))

  abbrev pub look_up :
      TransactionOperation
      → ExecutionTransaction
      → B
      → Option ℕ
      → ExecutionTransaction × B × Executed
  look_up op t b none = (t, b, err (raised (operation_outside_snapshot (operation_ref op))))
  look_up op t b (some index) = dispatch op t b (get_elem? t.operations index)

  unfoldable pub execute_operation :
      TransactionOperation → ExecutionTransaction → B → ExecutionTransaction × B × Executed
  unfolding stage_all record_events get
  execute_operation op t b =
      if is_executing t.state
      then look_up op t b (get (operation_ref op) t.operation_keys)
      else (t, b, err (raised (execute_invalid_state t.state)))

  -- The loop of `execute` stops at the first error.
  unfoldable pub execute_all :
      List TransactionOperation → ExecutionTransaction → B → ExecutionTransaction × B × Executed
  unfolding execute_operation
  execute_all [] t b = (t, b, ok tt)
  execute_all (op ∷ ops) t b =
      let r = execute_operation op t b in
      let rest = execute_all ops r.0 r.1 in elim r.2 [ err e ↦ (r.0, r.1, err e) | ok u ↦ rest ]

  abbrev pub with_execute_time : ℕ → ExecutionTransaction → ExecutionTransaction
  with_execute_time nanos t = record t {
    timings = record timings { execute_nanos = nanos_u64 nanos };
  }
    where
      open t use {timings}

  abbrev pub timed : ℕ → ExecutionTransaction × B × Executed → ExecutionTransaction × B × Executed
  timed nanos (t, b, r) = (with_execute_time nanos t, b, r)

  -- `nanos` is the time that the call took.
  unfoldable pub execute : ℕ → ExecutionTransaction → B → ExecutionTransaction × B × Executed
  unfolding execute_all nanos_u64
  execute nanos t b =
      if is_prepared t.state
      then timed nanos (execute_all t.operations (record t { state = executing }) b)
      else (t, b, err (raised (execute_invalid_state t.state)))
