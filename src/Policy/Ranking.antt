-- ===== src/Policy/Ranking.antt =====
-- The ranking of crates/host-coordinator/src/policy.rs. `sort_by` is the library's stable sort.
use Prim.Native.Nat.{Ordering, compare}
use Prim.Native.Nat.Ordering.{lt, eq, gt}
use hosts.Base.{ℕ, suc, ◌-◌, List, [], ◌∷◌, Option, none, some}
use hosts.Base.Order.{and_then}
use hosts.Base.Word.{u64_max, saturating_add}
use hosts.Base.Collections.{get, collect}
use hosts.Identity.Device.{PhysicalDeviceId, device_ord}
use hosts.Partition.{total_bytes}
use hosts.Policy.{
  Objective, latency, throughput, capacity_reserve, cache_affinity, expert_hotness, transfer_budget,
  power, ObjectiveDirection, minimize, maximize, direction, ObjectiveScore, RankedPlan,
  DeclaredConstraints, DeviceAssignment, CandidatePlan,
}

abbrev pub or_default : ℕ → Option ℕ → ℕ
or_default d none = d
or_default d (some n) = n

-- What one assignment adds to the reserve.
abbrev pub headroom : Option ℕ → Option ℕ → ℕ → ℕ
headroom none total reserve = reserve
headroom (some limit) none reserve = reserve
headroom (some limit) (some required) reserve = saturating_add reserve (limit - required)

abbrev pub reserve_from : List (PhysicalDeviceId × ℕ) → List DeviceAssignment → ℕ → ℕ
reserve_from budgets [] reserve = reserve
reserve_from budgets (a ∷ as') reserve =
    reserve_from budgets as' (headroom (get a.device budgets) (total_bytes a.required) reserve)

unfoldable pub capacity_reserve_bytes : CandidatePlan → DeclaredConstraints → ℕ
unfolding get total_bytes
capacity_reserve_bytes plan c = reserve_from c.per_device_budget plan.assignments 0

unfoldable pub objective_value : CandidatePlan → Objective → DeclaredConstraints → ℕ
unfolding capacity_reserve_bytes
objective_value plan latency c = or_default u64_max plan.facts.latency_nanos
objective_value plan throughput c = or_default 0 plan.facts.throughput_tokens_per_sec
objective_value plan capacity_reserve c = capacity_reserve_bytes plan c
objective_value plan cache_affinity c = or_default 0 plan.facts.cache_affinity_hit_rate_milli
objective_value plan expert_hotness c = or_default 0 plan.facts.expert_hotness_score
objective_value plan transfer_budget c = or_default u64_max plan.facts.transfer_bytes
objective_value plan power c = or_default u64_max plan.facts.estimated_power_milliwatts

pub record Scored : Type 0 where
  pub plan : CandidatePlan
  pub values : List ℕ
  pub devices : List PhysicalDeviceId

abbrev pub objective_values : CandidatePlan → List Objective → DeclaredConstraints → List ℕ
objective_values plan [] c = []
objective_values plan (o ∷ os) c = objective_value plan o c ∷ objective_values plan os c

abbrev pub assigned : List DeviceAssignment → List PhysicalDeviceId
assigned [] = []
assigned (a ∷ as') = a.device ∷ assigned as'

unfoldable pub score : List Objective → DeclaredConstraints → CandidatePlan → Scored
unfolding objective_value collect
score objectives c plan = record {
  plan = plan;
  values = objective_values plan objectives c;
  devices = collect (assigned plan.assignments);
}

-- Lexicographic, as `BTreeSet` compares.
unfoldable pub compare_devices : List PhysicalDeviceId → List PhysicalDeviceId → Ordering
compare_devices [] [] = eq
compare_devices [] (y ∷ ys) = lt
compare_devices (x ∷ xs) [] = gt
compare_devices (x ∷ xs) (y ∷ ys) = and_then (device_ord.cmp x y) (compare_devices xs ys)

abbrev pub compare_value : ObjectiveDirection → ℕ → ℕ → Ordering
compare_value minimize a b = compare a b
compare_value maximize a b = compare b a

-- The values are as many as the objectives, so that no index is out of range.
unfoldable pub compare_values : List Objective → List ℕ → List ℕ → Ordering
compare_values (o ∷ os) (a ∷ as') (b ∷ bs) =
    and_then (compare_value (direction o) a b) (compare_values os as' bs)
compare_values [] as' bs = eq
compare_values (o ∷ os) [] bs = eq
compare_values (o ∷ os) (a ∷ as') [] = eq

unfoldable pub compare_scored : List Objective → Scored → Scored → Ordering
unfolding compare_values compare_devices
compare_scored os a b =
    and_then (compare_values os a.values b.values) (compare_devices a.devices b.devices)

-- Before the first that is not smaller, so that equal ones keep their order.
unfoldable pub insert_scored : List Objective → Scored → List Scored → List Scored
unfolding compare_scored
insert_scored os x [] = x ∷ []
insert_scored os x (y ∷ ys) = elim (compare_scored os x y) [
  | gt ↦ y ∷ insert_scored os x ys
  | lt ↦ x ∷ y ∷ ys
  | eq ↦ x ∷ y ∷ ys
]

unfoldable pub sort_by : List Objective → List Scored → List Scored
unfolding insert_scored
sort_by os [] = []
sort_by os (x ∷ xs) = insert_scored os x (sort_by os xs)

abbrev pub score_all : List Objective → DeclaredConstraints → List CandidatePlan → List Scored
score_all os c [] = []
score_all os c (p ∷ ps) = score os c p ∷ score_all os c ps

abbrev pub zip_scores : List Objective → List ℕ → List ObjectiveScore
zip_scores (o ∷ os) (v ∷ vs) = record { objective = o; value = v } ∷ zip_scores os vs
zip_scores [] vs = []
zip_scores (o ∷ os) [] = []

abbrev pub number_from : ℕ → List Objective → List Scored → List RankedPlan
number_from rank os [] = []
number_from rank os (s ∷ ss) =
    record {
      rank = suc rank;
      plan = s.plan.name;
      devices = s.devices;
      scores = zip_scores os s.values;
    }
    ∷ number_from (suc rank) os ss

unfoldable pub rank_plans :
    List CandidatePlan → List Objective → DeclaredConstraints → List RankedPlan
unfolding sort_by score
rank_plans passers objectives c =
    number_from 0 objectives (sort_by objectives (score_all objectives c passers))
