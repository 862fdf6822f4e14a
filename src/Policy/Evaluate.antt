-- ===== src/Policy/Evaluate.antt =====
-- `evaluate` of crates/host-coordinator/src/policy.rs and its receipt. `print` spells a failing fact
-- where the receipt's bytes hold its text.
use Prim.Native.Nat.{bit_xor}
use native.Mathlib.Decide.{ℕ_discrete}
use hosts.Base.{
  ℕ, zero, suc, ◌*◌, ◌/◌, ◌%◌, Bool, true, false, List, [], ◌∷◌, ◌++◌, Option, none, some, Str,
  Result, ok, err, if◌then◌else◌,
}
use hosts.Base.Word.{wrap}
use hosts.Identity.Bytes.{push_u64, push_str, push_list}
use hosts.Identity.Device.{PhysicalDeviceId, device_bytes}
use hosts.Discovery.Snapshot.{DeviceDiscoverySnapshot, push_option}
use hosts.DeviceSet.{DeviceSet}
use hosts.BoundPlan.Admit.{hex_digit, hex_lower}
use hosts.Policy.{
  GateViolation, gate_tag, Fact, PlanRejection, Objective, objective_tag, ObjectiveScore,
  RankedPlan, CandidatePlan, PolicyRequest,
}
use hosts.Policy.Gates.{
  gate_health_epoch_selection, gate_membership, gate_compatibility, gate_memory, gate_topology,
}
use hosts.Policy.Ranking.{rank_plans}

pub record ExplainedReceipt : Type 0 where
  pub snapshot_id_hex : Str
  pub current_generation : ℕ
  pub per_device_budget : List (PhysicalDeviceId × ℕ)
  pub total_budget : Option ℕ
  pub objectives : List Objective
  pub rejected : List PlanRejection
  pub ranked : List RankedPlan
  pub determinism_fingerprint : Str

pub record PolicyOutcome : Type 0 where
  pub rejected : List PlanRejection
  pub ranked : List RankedPlan
  pub receipt : ExplainedReceipt

abbrev budget_bytes : PhysicalDeviceId × ℕ → List ℕ
budget_bytes (id, limit) = device_bytes id ++ push_u64 limit

abbrev violation_bytes : (Fact → Str) → GateViolation → List ℕ
violation_bytes print v =
    push_u64 (gate_tag v.gate)
    ++ (push_option device_bytes v.device ++ push_str (print v.failing_fact))

abbrev rejection_bytes : (Fact → Str) → PlanRejection → List ℕ
rejection_bytes print r = push_str r.plan ++ push_list (violation_bytes print) r.violations

abbrev score_bytes : ObjectiveScore → List ℕ
score_bytes s = push_u64 (objective_tag s.objective) ++ push_u64 s.value

abbrev ranked_bytes : RankedPlan → List ℕ
ranked_bytes r =
    push_u64 r.rank
    ++ (push_str r.plan ++ (push_list device_bytes r.devices ++ push_list score_bytes r.scores))

unfoldable pub receipt_canonical_bytes : (Fact → Str) → ExplainedReceipt → List ℕ
unfolding push_u64 push_str push_list device_bytes gate_tag objective_tag
receipt_canonical_bytes print r =
    push_str r.snapshot_id_hex
    ++ (push_u64 r.current_generation
        ++ (push_list budget_bytes r.per_device_budget
            ++ (push_option push_u64 r.total_budget
                ++ (push_list (λ (o : Objective). push_u64 (objective_tag o)) r.objectives
                    ++ (push_list (rejection_bytes print) r.rejected
                        ++ push_list ranked_bytes r.ranked)))))

abbrev fnv_from : ℕ → List ℕ → ℕ
fnv_from hash [] = hash
fnv_from hash (b ∷ bs) = fnv_from (wrap (bit_xor hash b * 0x100000001b3)) bs

unfoldable pub fnv1a64 : List ℕ → ℕ
fnv1a64 bs = fnv_from 0xcbf29ce484222325 bs

abbrev hex_digits : ℕ → ℕ → Str
hex_digits zero v = []
hex_digits (suc n) v = hex_digits n (v / 16) ++ (hex_digit (v % 16) ∷ [])

unfoldable pub hex64 : ℕ → Str
hex64 v = hex_digits 16 v

-- What each plan is rejected for, if anything, once a set is selected.
unfoldable pub violations_of : PolicyRequest → DeviceSet → CandidatePlan → List GateViolation
unfolding gate_membership gate_compatibility gate_memory gate_topology
violations_of r set plan =
    gate_membership plan set
    ++ (gate_compatibility plan r.discovery
        ++ (gate_memory plan r.constraints ++ gate_topology plan r.constraints.topology))

abbrev pub sorted_out :
    CandidatePlan
    → List GateViolation
    → List CandidatePlan × List PlanRejection
    → List CandidatePlan × List PlanRejection
sorted_out plan [] (passers, rejected) = (plan ∷ passers, rejected)
sorted_out plan (v ∷ vs) (passers, rejected) =
    (passers, record { plan = plan.name; violations = v ∷ vs } ∷ rejected)

-- The loop over the plans: those that pass, and the rejections.
unfoldable pub gate_plans :
    PolicyRequest → DeviceSet → List CandidatePlan → List CandidatePlan × List PlanRejection
unfolding violations_of
gate_plans r set [] = ([], [])
gate_plans r set (p ∷ ps) = sorted_out p (violations_of r set p) (gate_plans r set ps)

abbrev pub reject_all : GateViolation → List CandidatePlan → List PlanRejection
reject_all v [] = []
reject_all v (p ∷ ps) = record { plan = p.name; violations = v ∷ [] } ∷ reject_all v ps

abbrev pub judged :
    PolicyRequest → Result DeviceSet GateViolation → List PlanRejection × List RankedPlan
judged r (err v) = (reject_all v r.plans, [])
judged r (ok set) =
    let (passers, rejected) = gate_plans r set r.plans in
    (rejected, rank_plans passers r.objectives r.constraints)

abbrev unprinted : PolicyRequest → List PlanRejection → List RankedPlan → ExplainedReceipt
unprinted r rejected ranked = record {
  snapshot_id_hex = hex_lower r.discovery.id;
  current_generation = r.constraints.current_generation;
  per_device_budget = r.constraints.per_device_budget;
  total_budget = r.constraints.total_budget;
  objectives = r.objectives;
  rejected = rejected;
  ranked = ranked;
  determinism_fingerprint = [];
}

unfoldable pub explained :
    (Fact → Str) → PolicyRequest → List PlanRejection → List RankedPlan → ExplainedReceipt
unfolding receipt_canonical_bytes fnv1a64 hex64 hex_lower
explained print r rejected ranked =
    let receipt = unprinted r rejected ranked in
    record receipt {
      determinism_fingerprint = hex64 (fnv1a64 (receipt_canonical_bytes print receipt));
    }

-- The derived equality of snapshots, which the assertion tests.
unfoldable pub DeviceDiscoverySnapshot-discrete : Discrete DeviceDiscoverySnapshot
DeviceDiscoverySnapshot-discrete = hlevel ℕ_discrete

unfoldable pub same_snapshot : DeviceDiscoverySnapshot → DeviceDiscoverySnapshot → Bool
same_snapshot a b = elim (DeviceDiscoverySnapshot-discrete a b) [ yes e ↦ true | no n ↦ false ]

unfoldable pub evaluate : (Fact → Str) → PolicyRequest → Option PolicyOutcome
unfolding gate_health_epoch_selection gate_plans rank_plans explained same_snapshot
evaluate print r =
    let (rejected, ranked) = judged r (gate_health_epoch_selection r) in
    if same_snapshot r.constraints.topology.discovery r.discovery
    then some (record {
      rejected = rejected;
      ranked = ranked;
      receipt = explained print r rejected ranked;
    })
    else none
