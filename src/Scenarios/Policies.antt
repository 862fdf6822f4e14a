-- ===== src/Scenarios/Policies.antt =====
-- The theorems of the policy at two candidate plans.
use hosts.Base.{ℕ, true, List, [], ◌∷◌, Option, none, some, Str, bytes, ◌≡◌, arith}
use hosts.Base.Order.{str_ord}
use hosts.Identity.Device.{PhysicalDeviceId, device_ord}
use hosts.DeviceSet.{explicit}
use hosts.Policy.{
  Fact, latency, capacity_reserve, DeclaredConstraints, CandidatePlan, PolicyRequest,
  no_requirements, Objective,
}
use hosts.Policy.Ranking.{rank_plans}
use hosts.Policy.Ranked.{Ranking, rank_plans-Ranking}
use hosts.Policy.Evaluate.{PolicyOutcome, same_snapshot, evaluate}
use hosts.Policy.Gated.{Evaluated, evaluate-Evaluated}
use hosts.Scenarios.World.{device, ledger}
use hosts.Scenarios.Devices.{second, snapshot, topology}

abbrev on : Str → PhysicalDeviceId → Option ℕ → CandidatePlan
on name d nanos = record {
  name = name;
  assignments =
      record { device = d; required = ledger; required_capabilities = no_requirements } ∷ [];
  transfers = record { from = device; to = second } ∷ [];
  declared_total_bytes = 100;
  facts = record {
    latency_nanos = nanos;
    throughput_tokens_per_sec = none;
    cache_affinity_hit_rate_milli = none;
    expert_hotness_score = none;
    transfer_bytes = none;
    estimated_power_milliwatts = none;
  };
}

abbrev candidates : List CandidatePlan
candidates = on (bytes "slow") device none ∷ on (bytes "fast") second (some 10) ∷ []

abbrev objectives : List Objective
objectives = latency ∷ capacity_reserve ∷ []

abbrev declared : DeclaredConstraints
declared = record {
  current_generation = 1;
  topology = topology;
  per_device_budget = (device, 200000) ∷ (second, 5) ∷ [];
  total_budget = some 1000;
}

abbrev request : PolicyRequest
request = record {
  discovery = snapshot;
  selection = explicit (device ∷ second ∷ []);
  constraints = declared;
  objectives = objectives;
  plans = candidates;
}

rank_plans-Ranking_example :
    Ranking candidates objectives declared (rank_plans candidates objectives declared)
rank_plans-Ranking_example = rank_plans-Ranking candidates objectives declared

measured_from : same_snapshot topology.discovery snapshot ≡ true
unfolding same_snapshot
measured_from = ground arith

abbrev print : Fact → Str
print f = bytes "fact"

evaluate-Evaluated_example :
    (o : PolicyOutcome) × (evaluate print request ≡ some o) × Evaluated request o
evaluate-Evaluated_example = evaluate-Evaluated print request measured_from
