-- ===== src/Transaction/Commitment.antt =====
-- `ExecutionTransaction::commit` on every branch
-- (crates/host-coordinator/src/execution_transaction/transaction.rs).
use hosts.Base.{ℕ, true, false, List, [], none, some, Str, ok, err, raised, ◌≡◌, ◌≢◌}
use hosts.Transaction.Mirror.{BoundaryRef}
use hosts.Transaction.State.{
  BackendError, committed, publish_failed, commit_invalid_state, boundary_not_reached,
  commit_publish_failed,
}
use hosts.Transaction.Receipt.{TransactionReceipt, decided_commit}
use hosts.Transaction.Backend.{DeviceExecutionBackend}
use hosts.Transaction.Coordinator.{ExecutionTransaction, fail}
use hosts.Transaction.Execute.{is_executing}
use hosts.Transaction.Finish.{Committed, refreshed, missing_boundary_refs}

module _ {B : Type 0} (d : DeviceExecutionBackend B) where
  -- What `commit` of a transaction leaves and answers.
  pub data Commitment (debug : BackendError → Str) (ordinal : ℕ) (t : ExecutionTransaction) (b : B)
      (t' : ExecutionTransaction) (r : Committed) : Type 0 where
    not_executing :
        is_executing t.state ≡ false
        → r ≡ err (raised (commit_invalid_state t.state))
        → t' ≡ t
        → Commitment debug ordinal t b t' r
    not_reached :
        (missing : List BoundaryRef)
        → is_executing t.state ≡ true
        → missing_boundary_refs (refreshed d t b) ≡ missing
        → missing ≢ []
        → r ≡ err (raised (boundary_not_reached missing))
        → t' ≡ refreshed d t b
        → Commitment debug ordinal t b t' r
    not_published :
        (e : BackendError)
        → is_executing t.state ≡ true
        → missing_boundary_refs (refreshed d t b) ≡ []
        → (d.publish b).1 ≡ some e
        → r ≡ err (raised (commit_publish_failed e))
        → t' ≡ fail (publish_failed (debug e)) (refreshed d t b)
        → Commitment debug ordinal t b t' r
    published :
        (receipt : TransactionReceipt)
        → is_executing t.state ≡ true
        → missing_boundary_refs (refreshed d t b) ≡ []
        → (d.publish b).1 ≡ none
        → r ≡ ok receipt
        → receipt.decision ≡ decided_commit ordinal
        → receipt.executed_operations ≡ t.executed_operations
        → t'.state ≡ committed
        → t'.receipt ≡ some receipt
        → Commitment debug ordinal t b t' r
