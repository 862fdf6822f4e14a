-- ===== src/Transaction/Calls.antt =====
-- A transaction driven by any sequence of calls, with the backend's own changes between them
-- (crates/host-coordinator/src/execution_transaction/transaction.rs).
use hosts.Base.{ℕ, List, [], ◌∷◌, some, Str, ok, ◌≡◌, refl, sym, arith, inl, inr, Bool-cases}
use hosts.BoundPlan.{BoundDistributedPlan, is_degenerate}
use hosts.Transaction.Mirror.{TransactionOperation, TransactionCommitBoundary}
use hosts.Transaction.State.{
  BackendError, TransactionState, fresh, prepared, executing, committed, failed, aborted,
}
use hosts.Transaction.Backend.{DeviceExecutionBackend}
use hosts.Transport.Records.{TransportReceipt}
use hosts.Transaction.Coordinator.{
  ExecutionTransaction, new_transaction, with_transport_receipt, is_empty, created, build_receipt,
}
use hosts.Transaction.Prepare.{prepare}
use hosts.Transaction.Execute.{execute, execute_operation}
use hosts.Transaction.Finish.{commit, abort, missing_boundary_refs}
use hosts.Transaction.Invariant.{IsWellFormed, StateFacts}
use hosts.Transaction.Preserves.{
  prepare-IsWellFormed, execute-IsWellFormed, execute_operation-IsWellFormed, commit-IsWellFormed,
  abort-IsWellFormed,
}

-- The calls that drive a transaction, with the times and the ordinal that they record.
pub data Call : Type 0 where
  prepares : ℕ → Call
  executes : ℕ → Call
  executes_one : TransactionOperation → Call
  commits : (BackendError → Str) → ℕ → ℕ → Call
  aborts : ℕ → Str → Call

-- A call, transports selected for the receipt, or a change on the devices.
pub data Event (B : Type 0) : Type 0 where
  calls : Call → Event B
  selects : TransportReceipt → Event B
  environment : (B → B) → Event B

selected_facts :
    (r : TransportReceipt) (s : TransactionState) (t : ExecutionTransaction)
    → StateFacts s t
    → StateFacts s (record t { transport_receipt = some r })
unfolding missing_boundary_refs build_receipt
selected_facts r fresh t f = f
selected_facts r prepared t f = f
selected_facts r executing t f = f
selected_facts r (failed x) t f = f
selected_facts r committed t f = f
selected_facts r (aborted x) t f = f

selected-IsWellFormed :
    (r : TransportReceipt) (t : ExecutionTransaction)
    → IsWellFormed t
    → IsWellFormed (with_transport_receipt r t)
unfolding IsWellFormed with_transport_receipt
selected-IsWellFormed r t w = (selected_facts r t.state t w.0, w.1)

created-IsWellFormed :
    (id : Str) (plan : BoundDistributedPlan) (ops : List TransactionOperation)
    (boundary : TransactionCommitBoundary) (t : ExecutionTransaction)
    → new_transaction id plan ops boundary ≡ ok t
    → IsWellFormed t
unfolding IsWellFormed new_transaction
created-IsWellFormed id plan ops boundary t h = elim (Bool-cases (is_degenerate plan)) [
  | inl e ↦ absurd (ground arith)
  | inr e ↦ elim (Bool-cases (is_empty ops)) [
    | inl q ↦ absurd (ground arith)
    | inr q ↦
        let p : created id plan ops boundary ≡ t = ground arith in
        rw (sym p) (((refl, refl, refl, refl), refl, (refl, refl)), refl)
  ]
]

module _ {B : Type 0} (d : DeviceExecutionBackend B) where
  abbrev pub step : Call → ExecutionTransaction → B → ExecutionTransaction × B
  step (prepares nanos) t b = ((prepare d nanos t b).0, (prepare d nanos t b).1)
  step (executes nanos) t b = ((execute d nanos t b).0, (execute d nanos t b).1)
  step (executes_one op) t b = ((execute_operation d op t b).0, (execute_operation d op t b).1)
  step (commits debug nanos ordinal) t b =
      ((commit d debug nanos ordinal t b).0, (commit d debug nanos ordinal t b).1)
  step (aborts nanos reason) t b = ((abort d nanos reason t b).0, (abort d nanos reason t b).1)

  abbrev pub happen : Event B → ExecutionTransaction × B → ExecutionTransaction × B
  happen (calls c) (t, b) = step c t b
  happen (selects r) (t, b) = (with_transport_receipt r t, b)
  happen (environment change) (t, b) = (t, change b)

  abbrev pub run : List (Event B) → ExecutionTransaction × B → ExecutionTransaction × B
  run [] s = s
  run (e ∷ es) s = run es (happen e s)

  pub step-IsWellFormed :
      (c : Call) (t : ExecutionTransaction) (b : B) → IsWellFormed t → IsWellFormed (step c t b).0
  step-IsWellFormed (prepares nanos) t b w = prepare-IsWellFormed d nanos t b w
  step-IsWellFormed (executes nanos) t b w = execute-IsWellFormed d nanos t b w
  step-IsWellFormed (executes_one op) t b w = execute_operation-IsWellFormed d op t b w
  step-IsWellFormed (commits debug nanos ordinal) t b w =
      commit-IsWellFormed d debug nanos ordinal t b w
  step-IsWellFormed (aborts nanos reason) t b w = abort-IsWellFormed d nanos reason t b w

  happen-IsWellFormed :
      (e : Event B) (s : ExecutionTransaction × B) → IsWellFormed s.0 → IsWellFormed (happen e s).0
  happen-IsWellFormed (calls c) (t, b) w = step-IsWellFormed c t b w
  happen-IsWellFormed (selects r) (t, b) w = selected-IsWellFormed r t w
  happen-IsWellFormed (environment change) (t, b) w = w

  run_from :
      (es : List (Event B)) (s : ExecutionTransaction × B)
      → IsWellFormed s.0
      → IsWellFormed (run es s).0
  run_from [] s w = w
  run_from (e ∷ es) s w = run_from es (happen e s) (happen-IsWellFormed e s w)

  -- However a new transaction is driven, and whatever the devices do in between, it is well-formed.
  pub run-IsWellFormed :
      (id : Str) (plan : BoundDistributedPlan) (ops : List TransactionOperation)
      (boundary : TransactionCommitBoundary) (t : ExecutionTransaction) (b : B)
      (events : List (Event B))
      → new_transaction id plan ops boundary ≡ ok t
      → IsWellFormed (run events (t, b)).0
  run-IsWellFormed id plan ops boundary t b events h =
      run_from events (t, b) (created-IsWellFormed id plan ops boundary t h)
