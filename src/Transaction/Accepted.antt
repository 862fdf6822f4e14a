-- ===== src/Transaction/Accepted.antt =====
-- What an accepted plan satisfies, gate by gate
-- (crates/host-coordinator/src/execution_transaction/transaction.rs, `prepare`).
use hosts.Base.{[], some, ok, err, ◌≡◌, refl, arith}
use hosts.Base.Order.{str_ord}
use hosts.Base.Collections.{keys}
use hosts.BoundPlan.{Bindings, bindings_of}
use hosts.Transaction.Reservation.{derive_reservation}
use hosts.Transaction.State.{TransactionState, fresh}
use hosts.Transaction.Coordinator.{ExecutionTransaction}
use hosts.Transaction.Prepare.{
  Prepared, ◌>>=◌, Plan, check_state, bindings_or_panic, check_topology, index_operations,
  check_barriers, check_launches, check_admitted, check_budgets, check_plan, referenced_partitions,
}

-- A chain of gates ends well only if each of them does.
pub gate_passed :
    {First Last : Type 0} (gate : Prepared First) (later : First → Prepared Last) {last : Last}
    → gate >>= later ≡ ok last
    → (first : First) × (gate ≡ ok first) × (later first ≡ ok last)
gate_passed (err problem) later passed = absurd (ground arith)
gate_passed (ok first) later passed = (first, refl, passed)

pub record Accepted (t : ExecutionTransaction) (plan : Plan) : Type 0 where
  pub bindings : Bindings
  pub was_fresh : t.state ≡ fresh
  pub bound : bindings_of t.bound_plan ≡ some bindings
  pub topology : check_topology (keys bindings) 0 t.operations ≡ ok tt
  pub indexed : index_operations t.operations 0 [] ≡ ok plan.0
  pub barriers_declared : check_barriers t.operations t.commit_boundary.barriers ≡ ok tt
  pub launches_declared : check_launches t.operations t.commit_boundary.launches ≡ ok tt
  pub admitted : check_admitted bindings (referenced_partitions t.operations) ≡ ok tt
  pub derived : plan.1 ≡ derive_reservation t.operations (referenced_partitions t.operations)
  pub within_budget :
      check_budgets bindings (derive_reservation t.operations (referenced_partitions t.operations))
      ≡ ok tt

was_fresh_of : (s : TransactionState) {u : Unit {0}} → check_state s ≡ ok u → s ≡ fresh
was_fresh_of s h = ground arith

pub check_plan-Accepted :
    (t : ExecutionTransaction) (plan : Plan) → check_plan t ≡ ok plan → Accepted t plan
unfolding check_plan
check_plan-Accepted t plan h =
    let (u, h0, k0) = gate_passed (check_state t.state) _ h in
    let (bs, h1, k1) = gate_passed (bindings_or_panic (bindings_of t.bound_plan)) _ k0 in
    let (u2, h2, k2) = gate_passed (check_topology (keys bs) 0 t.operations) _ k1 in
    let (ks, h3, k3) = gate_passed (index_operations t.operations 0 []) _ k2 in
    let (u4, h4, k4) = gate_passed (check_barriers t.operations t.commit_boundary.barriers) _ k3 in
    let (u5, h5, k5) = gate_passed (check_launches t.operations t.commit_boundary.launches) _ k4 in
    let (u6, h6, k6) = gate_passed (check_admitted bs (referenced_partitions t.operations)) _ k5 in
    let (u7, h7, k7) =
      gate_passed
        (check_budgets bs (derive_reservation t.operations (referenced_partitions t.operations))) _
        k6 in
    record {
      bindings = bs;
      was_fresh = was_fresh_of t.state h0;
      bound = ground arith;
      topology = h2;
      indexed = ground arith;
      barriers_declared = h4;
      launches_declared = h5;
      admitted = h6;
      derived = ground arith;
      within_budget = h7;
    }
