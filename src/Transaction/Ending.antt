-- ===== src/Transaction/Ending.antt =====
-- The end of a transaction: what `commit` and `abort` leave final, and what `abort` tears down
-- (crates/host-coordinator/src/execution_transaction/transaction.rs).
use hosts.Base.{
  ℕ, Bool, true, false, List, [], ◌∷◌, none, some, Str, ok, err, ◌≡◌, refl, sym, ap, ◌∙◌, arith,
  ◌||◌, Raise,
}
use hosts.BoundPlan.{LogicalPartitionId}
use hosts.Base.Collections.{contains, difference, extend, contains-extend}
use hosts.Base.Order.{nat_ord, str_ord}
use hosts.Transaction.Mirror.{boundary_ref_ord, event_ord}
use hosts.Transaction.State.{
  TransactionState, TransactionFailure, fresh, prepared, executing, committed, failed, aborted,
  PrepareError,
}
use hosts.Transaction.Receipt.{TransactionReceipt, decided_abort}
use hosts.Transaction.Backend.{DeviceExecutionBackend}
use hosts.Transaction.Coordinator.{ExecutionTransaction, build_receipt}
use hosts.Transaction.Prepare.{check_plan, check_state}
use hosts.Transaction.Execute.{is_prepared, is_executing, execute, execute_operation}
use hosts.Transaction.Finish.{
  commit, abort, abort_in, tear_down, receipt_or_panic, Aborted, abort_failure, reserved_partitions,
  staged_partitions, release_all, retire_all,
}
use hosts.Transaction.Calls.{Call, prepares, executes, executes_one, commits, aborts, step}
use hosts.Transaction.Budget.{prepare_refused}
use hosts.Transaction.Invariant.{IsWellFormed, StateFacts, Undecided}

-- A committed or aborted transaction.
abbrev pub is_settled : TransactionState → Bool
is_settled fresh = false
is_settled prepared = false
is_settled executing = false
is_settled (failed f) = false
is_settled committed = true
is_settled (aborted f) = true

abbrev without_answer : {B R : Type 0} → ExecutionTransaction × B × R → ExecutionTransaction × B
without_answer (t, b, r) = (t, b)

extended :
    (p : LogicalPartitionId) (s ps : List LogicalPartitionId)
    → s ≡ []
    → contains p (extend s ps) ≡ contains p ps
unfolding contains
extended p s ps e = contains-extend p s ps ∙ ap (λ x. contains p x || contains p ps) e

module _ {B : Type 0} (d : DeviceExecutionBackend B) where
  settled_at :
      (s : TransactionState) (x : Raise PrepareError) (c : Call) (t : ExecutionTransaction) (b : B)
      → t.state ≡ s
      → check_state s ≡ err x
      → is_prepared s ≡ false
      → is_executing s ≡ false
      → ((nanos : ℕ) (reason : Str) → without_answer (abort_in d s nanos reason t b) ≡ (t, b))
      → step d c t b ≡ (t, b)
  unfolding execute execute_operation commit abort check_plan
  settled_at s x (prepares nanos) t b e r h k a =
      let q : check_plan t ≡ err x = rw (check_plan, e, r) refl in
      rw (prepare_refused d nanos t b x q) refl
  settled_at s x (executes nanos) t b e r h k a =
      let q : is_prepared t.state ≡ false = ap is_prepared e ∙ h in rw (execute, q) refl
  settled_at s x (executes_one op) t b e r h k a =
      let q : is_executing t.state ≡ false = ap is_executing e ∙ k in rw (execute_operation, q) refl
  settled_at s x (commits debug nanos ordinal) t b e r h k a =
      let q : is_executing t.state ≡ false = ap is_executing e ∙ k in rw (commit, q) refl
  settled_at s x (aborts nanos reason) t b e r h k a =
      ap (λ y. without_answer (abort_in d y nanos reason t b)) e ∙ a nanos reason

  settled_by :
      (s : TransactionState) (c : Call) (t : ExecutionTransaction) (b : B)
      → t.state ≡ s
      → is_settled s ≡ true
      → step d c t b ≡ (t, b)
  settled_by committed c t b e h =
      settled_at committed _ c t b e refl refl refl (λ nanos reason. refl)
  settled_by (aborted f) c t b e h =
      settled_at (aborted f) _ c t b e refl refl refl (λ nanos reason. refl)
  settled_by fresh c t b e h = absurd (ground arith)
  settled_by prepared c t b e h = absurd (ground arith)
  settled_by executing c t b e h = absurd (ground arith)
  settled_by (failed f) c t b e h = absurd (ground arith)

  -- On a committed or aborted transaction none of `prepare`, `execute`, `execute_operation`, `commit`
  -- and `abort` changes the transaction or the backend.
  pub settled_stays :
      (c : Call) (t : ExecutionTransaction) (b : B)
      → is_settled t.state ≡ true
      → step d c t b ≡ (t, b)
  settled_stays c t b h = settled_by t.state c t b refl h

  -- The backend was told to retire the partitions with the failure, one after the other.
  abbrev Retires : TransactionFailure → List LogicalPartitionId → B → B → Type 0
  Retires f [] b b' = b' ≡ b
  Retires f (p ∷ ps) b b' = Retires f ps (d.retire p f b) b'

  -- The backend was told to release the partitions, one after the other.
  abbrev Releases : List LogicalPartitionId → B → B → Type 0
  Releases [] b b' = b' ≡ b
  Releases (p ∷ ps) b b' = Releases ps (d.release p b) b'

  retire_all-Retires :
      (f : TransactionFailure) (ps : List LogicalPartitionId) (b : B)
      → Retires f ps b (retire_all d f ps b)
  unfolding retire_all
  retire_all-Retires f [] b = refl
  retire_all-Retires f (p ∷ ps) b = retire_all-Retires f ps (d.retire p f b)

  release_all-Releases : (ps : List LogicalPartitionId) (b : B) → Releases ps b (release_all d ps b)
  unfolding release_all
  release_all-Releases [] b = refl
  release_all-Releases (p ∷ ps) b = release_all-Releases ps (d.release p b)

  -- The answer of `abort`, the calls that it made on the backend and the partitions that it names.
  pub record TornDown (t : ExecutionTransaction) (b : B) (t' : ExecutionTransaction) (b' : B)
      (r : Aborted) (f : TransactionFailure) : Type 0 where
    pub receipt : TransactionReceipt
    pub answer : r ≡ ok receipt
    pub decided : receipt.decision ≡ decided_abort f
    pub kept : t'.receipt ≡ some receipt
    pub now_aborted : t'.state ≡ aborted f
    pub unpublished : receipt.publish_summary ≡ none
    pub same_teardown : receipt.teardown ≡ t'.teardown
    pub between : B
    pub retired : Retires f (staged_partitions t) b between
    pub released :
        Releases (difference (reserved_partitions t.reservation) (staged_partitions t)) between b'
    pub retires :
        (p : LogicalPartitionId)
        → contains p t'.teardown.retired_partitions ≡ contains p (staged_partitions t)
    pub releases :
        (p : LogicalPartitionId)
        → contains p t'.teardown.released_partitions
          ≡ contains p (difference (reserved_partitions t.reservation) (staged_partitions t))

  tear_down-TornDown :
      (nanos : ℕ) (f : TransactionFailure) (t : ExecutionTransaction) (b : B)
      → Undecided t
      → let r = tear_down d nanos f t b in TornDown t b r.0 r.1 r.2 f
  unfolding tear_down build_receipt contains
  tear_down-TornDown nanos f t b (decision, summary, receipt, teardown) = record {
    receipt = _;
    answer = refl;
    decided = refl;
    now_aborted = refl;
    unpublished = summary;
    same_teardown = refl;
    kept = refl;
    between = retire_all d f (staged_partitions t) b;
    retired = retire_all-Retires f (staged_partitions t) b;
    released =
        release_all-Releases (difference (reserved_partitions t.reservation) (staged_partitions t))
          (retire_all d f (staged_partitions t) b);
    retires = λ p.
        extended p t.teardown.retired_partitions (staged_partitions t)
          (ap (λ x. x.retired_partitions) teardown);
    releases = λ p.
        extended p t.teardown.released_partitions
          (difference (reserved_partitions t.reservation) (staged_partitions t))
          (ap (λ x. x.released_partitions) teardown);
  }

  abort_in-TornDown :
      (s : TransactionState) (nanos : ℕ) (reason : Str) (t : ExecutionTransaction) (b : B)
      → is_settled s ≡ false
      → StateFacts s t
      → let r = abort_in d s nanos reason t b in TornDown t b r.0 r.1 r.2 (abort_failure d s reason)
  abort_in-TornDown fresh nanos reason t b h f = tear_down-TornDown nanos _ t b f.0
  abort_in-TornDown prepared nanos reason t b h f = tear_down-TornDown nanos _ t b f.0
  abort_in-TornDown executing nanos reason t b h f = tear_down-TornDown nanos _ t b f.0
  abort_in-TornDown (failed x) nanos reason t b h f = tear_down-TornDown nanos _ t b f.0
  abort_in-TornDown committed nanos reason t b h f = absurd (ground arith)
  abort_in-TornDown (aborted x) nanos reason t b h f = absurd (ground arith)

  pub abort-TornDown :
      (nanos : ℕ) (reason : Str) (t : ExecutionTransaction) (b : B)
      → IsWellFormed t
      → is_settled t.state ≡ false
      → let r = abort d nanos reason t b in
        TornDown t b r.0 r.1 r.2 (abort_failure d t.state reason)
  unfolding abort IsWellFormed
  abort-TornDown nanos reason t b w h = abort_in-TornDown t.state nanos reason t b h w.0

  -- After an `abort` of a well-formed transaction that was neither committed nor aborted, a second
  -- one changes neither the transaction nor the backend, and answers what the first one did.
  pub abort_idempotent :
      (nanos later : ℕ) (reason other : Str) (t : ExecutionTransaction) (b : B)
      → IsWellFormed t
      → is_settled t.state ≡ false
      → let r = abort d nanos reason t b in abort d later other r.0 r.1 ≡ r
  unfolding abort
  abort_idempotent nanos later reason other t b w h =
      let r = abort d nanos reason t b in
      let torn = abort-TornDown nanos reason t b w h in
      ap (λ s. abort_in d s later other r.0 r.1) torn.now_aborted
      ∙ ap (λ x. (r.0, r.1, x)) (ap (receipt_or_panic d) torn.kept ∙ sym torn.answer)
