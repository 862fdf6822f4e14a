-- ===== src/Transaction/Preserves.antt =====
-- Every operation of an execution transaction keeps the invariant
-- (crates/host-coordinator/src/execution_transaction/transaction.rs).
use mathlib.Core.Path.{subst}
use hosts.Base.{
  ℕ, true, false, List, [], ◌∷◌, Option, none, some, Str, ◌≡◌, refl, sym, arith, inl, inr,
  Bool-cases, Result-cases, some_ne_none,
}
use hosts.Transaction.Mirror.{TransactionOperation, BoundaryRef}
use hosts.Transaction.Operation.{completed_events}
use hosts.Transaction.Reservation.{insert_declared}
use hosts.Transaction.State.{
  BackendError, TransactionState, fresh, prepared, executing, committed, failed, aborted,
  TransactionFailure, backend_failure, publish_failed,
}
use hosts.Transaction.Backend.{DeviceExecutionBackend}
use hosts.Transaction.Coordinator.{ExecutionTransaction, build_receipt, fail}
use hosts.Transaction.Prepare.{prepare}
use hosts.Transaction.Execute.{
  Executed, is_executing, is_prepared, execute, execute_operation, with_execute_time, record_events,
}
use hosts.Transaction.Finish.{
  missing_boundary_refs, conclude, commit, abort, abort_in, tear_down, publish_or_fail, if_reached,
  refreshed,
}
use hosts.Transaction.Index.{index_operations-IsIndexed}
use hosts.Transaction.Budget.{accepted, prepare_unchanged}
use hosts.Transaction.Outcomes.{
  Outcome, not_executing, not_indexed, out_of_range, other_facts, went_through, broke,
  execute_operation-Outcome, completed_with,
}
use hosts.Transaction.RunOutcomes.{
  AllPlanned, RunOutcome, ran, ran_all, stopped, execute_all-RunOutcome,
}
use hosts.Transaction.Invariant.{
  StateFacts, IsWellFormed, executing_of, facts_in, fail-IsWellFormed, Covered-more,
  plan-AllPlanned,
}

pub prepared_of : (s : TransactionState) → is_prepared s ≡ true → s ≡ prepared
prepared_of prepared h = refl
prepared_of fresh h = absurd (ground arith)
prepared_of executing h = absurd (ground arith)
prepared_of committed h = absurd (ground arith)
prepared_of (failed f) h = absurd (ground arith)
prepared_of (aborted f) h = absurd (ground arith)

module _ {B : Type 0} (d : DeviceExecutionBackend B) where
  conclude-IsWellFormed :
      (nanos ordinal : ℕ) (t : ExecutionTransaction) (b : B)
      → StateFacts executing t
      → t.teardown.partial_publication ≡ false
      → missing_boundary_refs t ≡ []
      → IsWellFormed (conclude d nanos ordinal t b).0
  unfolding IsWellFormed conclude build_receipt missing_boundary_refs
  conclude-IsWellFormed nanos ordinal t b (u, f, c, k) p m =
      ((ordinal, refl, some_ne_none _, (t.transport_receipt, refl, some_ne_none _), f, c, m), p)

  publish_or_fail-IsWellFormed :
      (debug : BackendError → Str) (nanos ordinal : ℕ) (t : ExecutionTransaction)
      (x : B × Option BackendError)
      → t.state ≡ executing
      → StateFacts executing t
      → t.teardown.partial_publication ≡ false
      → missing_boundary_refs t ≡ []
      → IsWellFormed (publish_or_fail d debug nanos ordinal t x).0
  publish_or_fail-IsWellFormed debug nanos ordinal t (b, some e) s (u, f, c, k) p m =
      fail-IsWellFormed (publish_failed (debug e)) t s u p
  publish_or_fail-IsWellFormed debug nanos ordinal t (b, none) s f p m =
      conclude-IsWellFormed nanos ordinal t b f p m

  if_reached-IsWellFormed :
      (debug : BackendError → Str) (nanos ordinal : ℕ) (t : ExecutionTransaction) (b : B)
      (missing : List BoundaryRef)
      → missing_boundary_refs t ≡ missing
      → t.state ≡ executing
      → StateFacts executing t
      → t.teardown.partial_publication ≡ false
      → IsWellFormed (if_reached d debug nanos ordinal t b missing).0
  unfolding IsWellFormed
  if_reached-IsWellFormed debug nanos ordinal t b [] m s f p =
      publish_or_fail-IsWellFormed debug nanos ordinal t (d.publish b) s f p m
  if_reached-IsWellFormed debug nanos ordinal t b (r ∷ rs) m s f p =
      (subst (λ x. StateFacts x t) (sym s) f, p)

  pub commit-IsWellFormed :
      (debug : BackendError → Str) (nanos ordinal : ℕ) (t : ExecutionTransaction) (b : B)
      → IsWellFormed t
      → IsWellFormed (commit d debug nanos ordinal t b).0
  unfolding IsWellFormed commit
  commit-IsWellFormed debug nanos ordinal t b w = elim (Bool-cases (is_executing t.state)) [
    | inl e ↦
        let s = executing_of t.state e in
        rw (commit, e)
          (if_reached-IsWellFormed debug nanos ordinal (refreshed d t b) b _ refl s
            (facts_in executing t s w) w.1)
    | inr e ↦ rw (commit, e) w
  ]

  tear_down-IsWellFormed :
      (nanos : ℕ) (f : TransactionFailure) (t : ExecutionTransaction) (b : B)
      → t.publish_summary ≡ none
      → t.teardown.partial_publication ≡ false
      → IsWellFormed (tear_down d nanos f t b).0
  unfolding IsWellFormed tear_down build_receipt
  tear_down-IsWellFormed nanos f t b s p =
      ((refl, s, (t.transport_receipt, refl, some_ne_none _), refl), p)

  abort_in-IsWellFormed :
      (s : TransactionState) (nanos : ℕ) (reason : Str) (t : ExecutionTransaction) (b : B)
      → t.state ≡ s
      → IsWellFormed t
      → IsWellFormed (abort_in d s nanos reason t b).0
  unfolding IsWellFormed
  abort_in-IsWellFormed fresh nanos reason t b e w =
      tear_down-IsWellFormed nanos _ t b (facts_in fresh t e w).0.1 w.1
  abort_in-IsWellFormed prepared nanos reason t b e w =
      tear_down-IsWellFormed nanos _ t b (facts_in prepared t e w).0.1 w.1
  abort_in-IsWellFormed executing nanos reason t b e w =
      tear_down-IsWellFormed nanos _ t b (facts_in executing t e w).0.1 w.1
  abort_in-IsWellFormed (failed f) nanos reason t b e w =
      tear_down-IsWellFormed nanos _ t b (facts_in (failed f) t e w).0.1 w.1
  abort_in-IsWellFormed committed nanos reason t b e w = w
  abort_in-IsWellFormed (aborted f) nanos reason t b e w = w

  pub abort-IsWellFormed :
      (nanos : ℕ) (reason : Str) (t : ExecutionTransaction) (b : B)
      → IsWellFormed t
      → IsWellFormed (abort d nanos reason t b).0
  unfolding abort
  abort-IsWellFormed nanos reason t b w = abort_in-IsWellFormed t.state nanos reason t b refl w

  -- What a run of the plan leaves, timed, is well-formed.
  run-IsWellFormed :
      (nanos : ℕ) (ops : List TransactionOperation) (t t' : ExecutionTransaction) (b b' : B)
      (r : Executed)
      → RunOutcome d ops t b t' b' r
      → AllPlanned t.operations ops
      → t.state ≡ executing
      → StateFacts executing t
      → t.teardown.partial_publication ≡ false
      → IsWellFormed (with_execute_time d nanos t')
  unfolding IsWellFormed fail
  run-IsWellFormed nanos ops t t' b b' r (ran_all events cs e q) planned s (u, f, c, k) p =
      rw (q, s)
        (
          (
            u,
            f,
            Covered-more t ops (ran ops (insert_declared ops t.staged_write_set) events t) c planned
                refl refl refl,
            k,
          ),
          p,
        )
  run-IsWellFormed nanos ops t t' b b' r (stopped done op rest x set events m o cs v e q) planned s
        (u, f, c, k) p =
      rw (q, fail, s) ((u, refl), p)

  pub execute-IsWellFormed :
      (nanos : ℕ) (t : ExecutionTransaction) (b : B)
      → IsWellFormed t
      → IsWellFormed (execute d nanos t b).0
  unfolding IsWellFormed execute
  execute-IsWellFormed nanos t b w = elim (Bool-cases (is_prepared t.state)) [
    | inl e ↦
        let (u, f, (x, y), k) = facts_in prepared t (prepared_of t.state e) w in
        let t' : ExecutionTransaction = record t { state = executing } in
        let planned = plan-AllPlanned t.operations in
        rw (execute, e)
          (run-IsWellFormed nanos t.operations t' _ b _ _
            (execute_all-RunOutcome d t.operations t' b refl k planned) planned refl
            (u, f, ([], tt, x, y), k) w.1)
    | inr e ↦ rw (execute, e) w
  ]

  Outcome-IsWellFormed :
      (op : TransactionOperation) (t t' : ExecutionTransaction) (b b' : B) (r : Executed)
      → Outcome d op t b t' b' r
      → IsWellFormed t
      → IsWellFormed t'
  unfolding IsWellFormed
  Outcome-IsWellFormed op t t' b b' r (not_executing s e q v) w = rw q w
  Outcome-IsWellFormed op t t' b b' r (not_indexed s k e q v) w = rw q w
  Outcome-IsWellFormed op t t' b b' r (out_of_range i s k g e q v) w = rw q w
  Outcome-IsWellFormed op t t' b b' r (other_facts i o s k g n e q v) w = rw q w
  Outcome-IsWellFormed op t t' b b' r (broke i x set s k g v e q) w =
      let here = executing_of t.state s in
      rw q (fail-IsWellFormed (backend_failure x) _ here (facts_in executing t here w).0 w.1)
  Outcome-IsWellFormed op t t' b b' r (went_through i s k g v e n q) w =
      let here = executing_of t.state s in
      let (u, f, c, m) = facts_in executing t here w in
      rw (q, here)
        (
          (
            u,
            f,
            Covered-more t (op ∷ [])
                (completed_with op (record_events d (completed_events op) b' t.completed_events) t)
                c ((i, g), tt) refl refl refl,
            m,
          ),
          w.1,
        )

  pub execute_operation-IsWellFormed :
      (op : TransactionOperation) (t : ExecutionTransaction) (b : B)
      → IsWellFormed t
      → IsWellFormed (execute_operation d op t b).0
  unfolding execute_operation IsWellFormed
  execute_operation-IsWellFormed op t b w =
      Outcome-IsWellFormed op t _ b _ _ (execute_operation-Outcome d op t b) w

  pub prepare-IsWellFormed :
      (nanos : ℕ) (t : ExecutionTransaction) (b : B)
      → IsWellFormed t
      → IsWellFormed (prepare d nanos t b).0
  unfolding IsWellFormed
  prepare-IsWellFormed nanos t b w = elim (Result-cases (prepare d nanos t b).2) [
    | inl (x, e) ↦
        let (plan, a, q) = accepted d nanos t b e in
        let (u, f, n) = facts_in fresh t a.was_fresh w in
        rw q ((u, f, n, index_operations-IsIndexed t.operations plan.0 a.indexed), w.1)
    | inr (x, e) ↦ rw (prepare_unchanged d nanos t b x e) w
  ]
