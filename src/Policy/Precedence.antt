-- ===== src/Policy/Precedence.antt =====
-- When one plan stands before another in the ranking of crates/host-coordinator/src/policy.rs,
-- described without the comparator and the fold of the code: what each objective measures, which
-- plan is better at it, and how the declared order of objectives and then the devices decide.
use Prim.Native.Nat.{Ordering, compare}
use Prim.Native.Nat.Ordering.{lt, eq, gt}
use hosts.Base.{
  ℕ, ◌+◌, ◌-◌, ◌^◌, ◌<◌, List, [], ◌∷◌, Option, none, some, ltb, if◌then◌else◌, ◌≡◌, ◌≢◌, refl, ap,
  ◌∙◌, ◌⊎◌, inl, inr, arith,
}
use hosts.Base.Collections.{get, collect}
use hosts.Base.Order.{and_then}
use hosts.Base.Word.{u64_mod}
use hosts.Identity.Device.{PhysicalDeviceId, device_ord}
use hosts.Partition.{PartitionBudgetLedger, total_bytes}
use hosts.Partition.Admission.{ledger_sum, total_bytes-sum}
use hosts.Transport.Accounts.{saturate}
use hosts.Policy.{
  Objective, latency, throughput, capacity_reserve, cache_affinity, expert_hotness, transfer_budget,
  power, direction, DeclaredConstraints, DeviceAssignment, CandidatePlan,
}
use hosts.Policy.Ranking.{
  assigned, capacity_reserve_bytes, headroom, reserve_from, objective_value, objective_values,
  compare_value, compare_values, compare_devices, compare_scored, score,
}

-- A missing fact counts as the largest word where less is better.
abbrev pub cost : Option ℕ → ℕ
cost none = 2 ^ 64 - 1
cost (some n) = n

-- A missing fact counts as nothing where more is better.
abbrev pub gain : Option ℕ → ℕ
gain none = 0
gain (some n) = n

-- What an assignment leaves free of a declared device budget; nothing where none is declared, or
-- where its seven classes, added as integers, pass 64 bits.
abbrev pub free : Option ℕ → PartitionBudgetLedger → ℕ
free none l = 0
free (some limit) l = if ltb (ledger_sum l) u64_mod then limit - ledger_sum l else 0

abbrev pub free_sum : List (PhysicalDeviceId × ℕ) → List DeviceAssignment → ℕ
free_sum budgets [] = 0
free_sum budgets (a ∷ as') = free (get a.device budgets) a.required + free_sum budgets as'

-- What each objective measures of a plan.
abbrev pub worth : DeclaredConstraints → CandidatePlan → Objective → ℕ
worth c p latency = cost p.facts.latency_nanos
worth c p throughput = gain p.facts.throughput_tokens_per_sec
worth c p capacity_reserve = saturate (free_sum c.per_device_budget p.assignments)
worth c p cache_affinity = gain p.facts.cache_affinity_hit_rate_milli
worth c p expert_hotness = gain p.facts.expert_hotness_score
worth c p transfer_budget = cost p.facts.transfer_bytes
worth c p power = cost p.facts.estimated_power_milliwatts

-- The first plan is strictly better than the second at the objective.
abbrev pub Better : DeclaredConstraints → Objective → CandidatePlan → CandidatePlan → Type 0
Better c latency p q = worth c p latency < worth c q latency
Better c throughput p q = worth c q throughput < worth c p throughput
Better c capacity_reserve p q = worth c q capacity_reserve < worth c p capacity_reserve
Better c cache_affinity p q = worth c q cache_affinity < worth c p cache_affinity
Better c expert_hotness p q = worth c q expert_hotness < worth c p expert_hotness
Better c transfer_budget p q = worth c p transfer_budget < worth c q transfer_budget
Better c power p q = worth c p power < worth c q power

-- The first list of devices is not after the second, device by device, a proper prefix first.
abbrev pub NotAfter : List PhysicalDeviceId → List PhysicalDeviceId → Type 0
NotAfter [] ys = Unit
NotAfter (x ∷ xs) [] = ⊥
NotAfter (x ∷ xs) (y ∷ ys) = (device_ord.cmp x y ≡ lt) ⊎ ((x ≡ y) × NotAfter xs ys)

-- The first plan may stand before the second: it is better at the first objective at which the two
-- differ, or they differ at none and its devices are not after the other's.
abbrev pub Precedes : DeclaredConstraints → List Objective → CandidatePlan → CandidatePlan → Type 0
Precedes c [] p q = NotAfter (collect (assigned p.assignments)) (collect (assigned q.assignments))
Precedes c (o ∷ os) p q = Better c o p q ⊎ ((worth c p o ≡ worth c q o) × Precedes c os p q)

headroom-free :
    (l : PartitionBudgetLedger) (found : Option ℕ) (n : ℕ)
    → headroom found (total_bytes l) (saturate n) ≡ saturate (n + free found l)
headroom-free l none n = let q : n ≡ n + 0 = omega arith in ap saturate q
headroom-free l (some limit) n = rw (total_bytes-sum l) (ground arith)

reserve-free_sum :
    (budgets : List (PhysicalDeviceId × ℕ)) (as' : List DeviceAssignment) (n : ℕ)
    → reserve_from budgets as' (saturate n) ≡ saturate (n + free_sum budgets as')
reserve-free_sum budgets [] n = let q : n ≡ n + 0 = omega arith in ap saturate q
reserve-free_sum budgets (a ∷ as') n =
    let found = get a.device budgets in
    let q : n + free found a.required + free_sum budgets as'
        ≡ n + (free found a.required + free_sum budgets as') =
      omega arith in
    ap (reserve_from budgets as') (headroom-free a.required found n)
    ∙ (reserve-free_sum budgets as' (n + free found a.required) ∙ ap saturate q)

pub objective_value-worth :
    (c : DeclaredConstraints) (p : CandidatePlan) (o : Objective)
    → objective_value p o c ≡ worth c p o
unfolding objective_value capacity_reserve_bytes
objective_value-worth c p latency = ground arith
objective_value-worth c p throughput = ground arith
objective_value-worth c p capacity_reserve =
    let n = free_sum c.per_device_budget p.assignments in
    let q : 0 + n ≡ n = omega arith in
    reserve-free_sum c.per_device_budget p.assignments 0 ∙ ap saturate q
objective_value-worth c p cache_affinity = ground arith
objective_value-worth c p expert_hotness = ground arith
objective_value-worth c p transfer_budget = ground arith
objective_value-worth c p power = ground arith

lt_of_compare : (a b : ℕ) → compare a b ≡ lt → a < b
lt_of_compare a b h = ground arith

objective_decides :
    (c : DeclaredConstraints) (o : Objective) (p q : CandidatePlan)
    → compare_value (direction o) (worth c p o) (worth c q o) ≡ lt
    → Better c o p q
objective_decides c latency p q h = lt_of_compare _ _ h
objective_decides c throughput p q h = lt_of_compare _ _ h
objective_decides c capacity_reserve p q h = lt_of_compare _ _ h
objective_decides c cache_affinity p q h = lt_of_compare _ _ h
objective_decides c expert_hotness p q h = lt_of_compare _ _ h
objective_decides c transfer_budget p q h = lt_of_compare _ _ h
objective_decides c power p q h = lt_of_compare _ _ h

tied_of : (o : Objective) (a b : ℕ) → compare_value (direction o) a b ≡ eq → a ≡ b
tied_of latency a b h = ground arith
tied_of throughput a b h = ground arith
tied_of capacity_reserve a b h = ground arith
tied_of cache_affinity a b h = ground arith
tied_of expert_hotness a b h = ground arith
tied_of transfer_budget a b h = ground arith
tied_of power a b h = ground arith

devices_decide : (xs ys : List PhysicalDeviceId) → compare_devices xs ys ≢ gt → NotAfter xs ys
unfolding compare_devices
devices_decide [] ys h = tt
devices_decide (x ∷ xs) [] h = h refl
devices_decide (x ∷ xs) (y ∷ ys) h = at (devices_decide xs ys) (device_ord.cmp x y) refl
  where
    at :
        (compare_devices xs ys ≢ gt → NotAfter xs ys)
        → (o : Ordering) → device_ord.cmp x y ≡ o
        → NotAfter (x ∷ xs) (y ∷ ys)
    at ih lt e = inl e
    at ih eq e = inr (device_ord.eq_of_cmp x y e, ih (λ k. h (rw e k)))
    at ih gt e = absurd (h (rw e refl))

ordered_values :
    (c : DeclaredConstraints) (os : List Objective) (p q : CandidatePlan)
    → let xs = collect (assigned p.assignments) in
      let ys = collect (assigned q.assignments) in
      and_then
          (compare_values os (objective_values p os c) (objective_values q os c))
          (compare_devices xs ys)
        ≢ gt
      → Precedes c os p q
unfolding compare_values
ordered_values c [] p q h = devices_decide _ _ h
ordered_values c (o ∷ os) p q h =
    at (ordered_values c os p q) (compare_value (direction o) (worth c p o) (worth c q o)) refl
  where
    xs : List PhysicalDeviceId
    xs = collect (assigned p.assignments)

    ys : List PhysicalDeviceId
    ys = collect (assigned q.assignments)

    same :
        compare_value (direction o) (objective_value p o c) (objective_value q o c)
        ≡ compare_value (direction o) (worth c p o) (worth c q o)
    same = rw (objective_value-worth c p o, objective_value-worth c q o) refl

    at :
        (and_then
              (compare_values os (objective_values p os c) (objective_values q os c))
              (compare_devices xs ys)
            ≢ gt
          → Precedes c os p q)
        → (x : Ordering) → compare_value (direction o) (worth c p o) (worth c q o) ≡ x
        → Precedes c (o ∷ os) p q
    at ih lt e = inl (objective_decides c o p q e)
    at ih eq e = inr (tied_of o _ _ e, ih (λ k. h (rw (same ∙ e) k)))
    at ih gt e = absurd (h (rw (same ∙ e) refl))

-- Where the comparator does not answer `Greater`, the first plan may stand before the second.
pub compare_scored-Precedes :
    (c : DeclaredConstraints) (os : List Objective) (p q : CandidatePlan)
    → compare_scored os (score os c p) (score os c q) ≢ gt
    → Precedes c os p q
unfolding compare_scored score
compare_scored-Precedes c os p q h = ordered_values c os p q h
