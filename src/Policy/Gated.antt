-- ===== src/Policy/Gated.antt =====
-- What `evaluate` of crates/host-coordinator/src/policy.rs ranks and what it rejects.
use mathlib.Core.Path.{subst}
use hosts.Base.{
  ℕ, ◌≤◌, true, List, [], ◌∷◌, Option, none, some, Str, Result, ok, err, All, ◌≡◌, ◌≢◌, refl, sym,
  arith, inl, inr, Result-cases,
}
use hosts.Base.Order.{str_ord}
use hosts.Base.Collections.{get, contains}
use hosts.Identity.Device.{PhysicalDeviceId, device_ord}
use hosts.Partition.{total_bytes}
use hosts.DeviceSet.{DeviceSet, DeviceTopologySnapshot, traversal_allowed}
use hosts.Policy.{
  Fact, GateViolation, PlanRejection, DeviceAssignment, Transfer, CandidatePlan, PolicyRequest,
}
use hosts.Policy.Gates.{
  gate_health_epoch_selection, member_violations, gate_membership, budget_facts, memory_violations,
  budgets_violations, total_violations, gate_memory, transfers_violations, gate_topology,
}
use hosts.Policy.Compatible.{append_nil_both, Compatible, gate_compatibility-Compatible}
use hosts.Policy.Ranking.{rank_plans}
use hosts.Policy.Evaluate.{
  PolicyOutcome, violations_of, sorted_out, gate_plans, reject_all, judged, explained,
  same_snapshot, evaluate,
}

-- The assignment's ledger has a total, within the device's declared budget.
pub record Budgeted (budgets : List (PhysicalDeviceId × ℕ)) (a : DeviceAssignment) : Type 0 where
  pub limit : ℕ
  pub total : ℕ
  pub declared : get a.device budgets ≡ some limit
  pub counted : total_bytes a.required ≡ some total
  pub fits : total ≤ limit

abbrev pub TotalFits : Option ℕ → ℕ → Type 0
TotalFits none n = Unit
TotalFits (some budget) n = n ≤ budget

-- The plan passes every gate.
pub record Passes (r : PolicyRequest) (set : DeviceSet) (p : CandidatePlan) : Type 0 where
  pub members : All (λ (a : DeviceAssignment). contains a.device set ≡ true) p.assignments
  pub compatible : All (Compatible r.discovery) p.assignments
  pub budgets : All (Budgeted r.constraints.per_device_budget) p.assignments
  pub total : TotalFits r.constraints.total_budget p.declared_total_bytes
  pub transfers :
      All
        (λ (t : Transfer). traversal_allowed t.from t.to r.constraints.topology ≡ ok tt)
        p.transfers

each_member :
    (set : DeviceSet) (as' : List DeviceAssignment)
    → member_violations set as' ≡ []
    → All (λ (a : DeviceAssignment). contains a.device set ≡ true) as'
each_member set [] h = tt
each_member set (a ∷ as') h = (ground arith, each_member set as' (ground arith))

budgeted :
    (budgets : List (PhysicalDeviceId × ℕ)) (a : DeviceAssignment) (limit total : Option ℕ)
    → get a.device budgets ≡ limit
    → total_bytes a.required ≡ total
    → memory_violations a.device (budget_facts a.device limit total) ≡ []
    → Budgeted budgets a
budgeted budgets a none total e f h = absurd (ground arith)
budgeted budgets a (some limit) none e f h = absurd (ground arith)
budgeted budgets a (some limit) (some total) e f h = record {
  limit = limit;
  total = total;
  declared = e;
  counted = f;
  fits = ground arith;
}

each_in_budget :
    (budgets : List (PhysicalDeviceId × ℕ)) (as' : List DeviceAssignment)
    → budgets_violations budgets as' ≡ []
    → All (Budgeted budgets) as'
each_in_budget budgets [] h = tt
each_in_budget budgets (a ∷ as') h =
    let (f, r) = append_nil_both _ _ h in
    (budgeted budgets a _ _ refl refl f, each_in_budget budgets as' r)

total_fits : (budget : Option ℕ) (n : ℕ) → total_violations budget n ≡ [] → TotalFits budget n
total_fits none n h = tt
total_fits (some budget) n h = ground arith

each_traversed :
    (t : DeviceTopologySnapshot) (xs : List Transfer)
    → transfers_violations t xs ≡ []
    → All (λ (x : Transfer). traversal_allowed x.from x.to t ≡ ok tt) xs
each_traversed t [] h = tt
each_traversed t (x ∷ xs) h = elim (Result-cases (traversal_allowed x.from x.to t)) [
  | inl (u, e) ↦ (e, each_traversed t xs (ground (arith, e)))
  | inr (p, e) ↦ absurd (ground (arith, e))
]

module _ (r : PolicyRequest) (set : DeviceSet) where
  violations_of-Passes : (p : CandidatePlan) → violations_of r set p ≡ [] → Passes r set p
  unfolding violations_of gate_membership gate_memory gate_topology
  violations_of-Passes p h =
      let (m, h1) = append_nil_both _ _ h in
      let (c, h2) = append_nil_both _ _ h1 in
      let (b, t) = append_nil_both _ _ h2 in
      let (f, g) = append_nil_both _ _ b in
      record {
        members = each_member set p.assignments m;
        compatible = gate_compatibility-Compatible r.discovery p c;
        budgets = each_in_budget r.constraints.per_device_budget p.assignments f;
        total = total_fits r.constraints.total_budget p.declared_total_bytes g;
        transfers = each_traversed r.constraints.topology p.transfers t;
      }

  -- Each plan of the list, in order, passes or is rejected with its violations.
  pub data Splits : List CandidatePlan → List CandidatePlan → List PlanRejection → Type 0 where
    done : Splits [] [] []
    passes :
        (p : CandidatePlan) (ps passers : List CandidatePlan) (rejected : List PlanRejection)
        → Passes r set p
        → Splits ps passers rejected
        → Splits (p ∷ ps) (p ∷ passers) rejected
    fails :
        (p : CandidatePlan) (ps passers : List CandidatePlan) (rejected : List PlanRejection)
        (x : PlanRejection)
        → x.plan ≡ p.name
        → x.violations ≡ violations_of r set p
        → x.violations ≢ []
        → Splits ps passers rejected
        → Splits (p ∷ ps) passers (x ∷ rejected)

  one_more :
      (p : CandidatePlan) (vs : List GateViolation) (ps : List CandidatePlan)
      (rest : List CandidatePlan × List PlanRejection)
      → violations_of r set p ≡ vs
      → Splits ps rest.0 rest.1
      → Splits (p ∷ ps) (sorted_out p vs rest).0 (sorted_out p vs rest).1
  one_more p [] ps (a, b) e s = passes p ps a b (violations_of-Passes p e) s
  one_more p (v ∷ vs) ps (a, b) e s =
      fails p ps a b (record { plan = p.name; violations = v ∷ vs }) refl (sym e)
        (λ h. ground arith) s

  gate_plans-Splits :
      (ps : List CandidatePlan) → Splits ps (gate_plans r set ps).0 (gate_plans r set ps).1
  unfolding gate_plans
  gate_plans-Splits [] = done
  gate_plans-Splits (p ∷ ps) =
      one_more p (violations_of r set p) ps (gate_plans r set ps) refl (gate_plans-Splits ps)

-- What `evaluate` answers.
pub data Evaluated (r : PolicyRequest) (o : PolicyOutcome) : Type 0 where
  not_selected :
      (v : GateViolation)
      → gate_health_epoch_selection r ≡ err v
      → o.ranked ≡ []
      → o.rejected ≡ reject_all v r.plans
      → Evaluated r o
  selected :
      (set : DeviceSet) (passers : List CandidatePlan)
      → gate_health_epoch_selection r ≡ ok set
      → Splits r set r.plans passers o.rejected
      → o.ranked ≡ rank_plans passers r.objectives r.constraints
      → Evaluated r o

outcome :
    (print : Fact → Str) (r : PolicyRequest) (s : Result DeviceSet GateViolation)
    (o : PolicyOutcome)
    → gate_health_epoch_selection r ≡ s
    → o.rejected ≡ (judged r s).0
    → o.ranked ≡ (judged r s).1
    → Evaluated r o
outcome print r (err v) o e p q = not_selected v e q p
outcome print r (ok set) o e p q =
    selected set (gate_plans r set r.plans).0 e
      (subst (Splits r set r.plans (gate_plans r set r.plans).0) (sym p)
        (gate_plans-Splits r set r.plans))
      q

-- If the topology was measured from the request's snapshot, `evaluate` answers. Where no set can be
-- selected, it rejects every plan for that and ranks none. Otherwise each plan either passes every
-- gate or is rejected with its violations, of which there is at least one, and the passers, and no
-- others, are ranked. To pass, its devices are members with recorded facts that meet each required
-- capability, dtype and launch demand, their budgets hold the ledgers' totals, the declared total is
-- within its budget, and each transfer is allowed.
pub evaluate-Evaluated :
    (print : Fact → Str) (r : PolicyRequest)
    → same_snapshot r.constraints.topology.discovery r.discovery ≡ true
    → (o : PolicyOutcome) × (evaluate print r ≡ some o) × Evaluated r o
unfolding evaluate
evaluate-Evaluated print r h =
    let j = judged r (gate_health_epoch_selection r) in
    let o : PolicyOutcome = record {
      rejected = j.0;
      ranked = j.1;
      receipt = explained print r j.0 j.1;
    } in
    (o, rw h refl, outcome print r (gate_health_epoch_selection r) o refl refl refl)
