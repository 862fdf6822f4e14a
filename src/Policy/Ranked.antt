-- ===== src/Policy/Ranked.antt =====
-- The ranking of crates/host-coordinator/src/policy.rs (`rank_plans`), against the description of
-- Precedence.
use mathlib.Core.List.{Perm}
use hosts.Base.{ℕ, suc, List, [], ◌∷◌, ◌≡◌, refl, sym, ap, ◌∙◌}
use mathlib.Core.Path.{subst}
use hosts.Base.Collections.{collect}
use hosts.Policy.Precedence.{worth, Precedes, objective_value-worth, compare_scored-Precedes}
use hosts.Identity.Device.{device_ord}
use hosts.Policy.{Objective, ObjectiveScore, RankedPlan, DeclaredConstraints, CandidatePlan}
use hosts.Policy.Ranking.{
  Scored, compare_scored, sort_by, score, score_all, assigned, objective_values, zip_scores,
  number_from, rank_plans,
}
use hosts.Policy.Sorting.{plans_of, Sorted, sort-Sorted, AllScored, sort-AllScored, sort-Perm}

module _ (os : List Objective) (c : DeclaredConstraints) where
  -- Each plan may stand before the next one.
  abbrev pub InOrder : List CandidatePlan → Type 0
  InOrder [] = Unit
  InOrder (p ∷ []) = Unit
  InOrder (p ∷ q ∷ qs) = Precedes c os p q × InOrder (q ∷ qs)

  in_order : (ss : List Scored) → AllScored os c ss → Sorted os ss → InOrder (plans_of ss)
  in_order [] a s = tt
  in_order (x ∷ []) a s = tt
  in_order (x ∷ y ∷ ys) a s = (
    compare_scored-Precedes c os x.plan y.plan (λ h. s.0 (
        ap (λ v. compare_scored os v y) a.0
        ∙ (ap (compare_scored os (score os c x.plan)) a.1.0 ∙ h))),
    in_order (y ∷ ys) a.1 s.1,
  )

  -- The scores are the objectives in the declared order, with what each measures of the plan.
  abbrev pub ScoredBy : CandidatePlan → List Objective → List ObjectiveScore → Type 0
  ScoredBy p [] [] = Unit
  ScoredBy p [] (s ∷ ss) = ⊥
  ScoredBy p (o ∷ rest) [] = ⊥
  ScoredBy p (o ∷ rest) (s ∷ ss) = (s.objective ≡ o) × (s.value ≡ worth c p o) × ScoredBy p rest ss

  zip_scores-ScoredBy :
      (p : CandidatePlan) (rest : List Objective)
      → ScoredBy p rest (zip_scores rest (objective_values p rest c))
  zip_scores-ScoredBy p [] = tt
  zip_scores-ScoredBy p (o ∷ rest) = (refl, objective_value-worth c p o, zip_scores-ScoredBy p rest)

  -- The ranked plans are the plans in this order, with ranks that count up from the given one.
  abbrev pub Lists : ℕ → List CandidatePlan → List RankedPlan → Type 0
  Lists n [] [] = Unit
  Lists n [] (r ∷ rs) = ⊥
  Lists n (p ∷ ps) [] = ⊥
  Lists n (p ∷ ps) (r ∷ rs) =
      (r.rank ≡ n)
      × (r.plan ≡ p.name)
      × (r.devices ≡ collect (assigned p.assignments))
      × ScoredBy p os r.scores
      × Lists (suc n) ps rs

  number_from-Lists :
      (n : ℕ) (ss : List Scored)
      → AllScored os c ss
      → Lists (suc n) (plans_of ss) (number_from n os ss)
  unfolding score
  number_from-Lists n [] a = tt
  number_from-Lists n (s ∷ ss) a = (
    refl,
    refl,
    ap (λ v. v.devices) a.0,
    subst (λ v. ScoredBy s.plan os (zip_scores os v)) (sym (ap (λ v. v.values) a.0))
        (zip_scores-ScoredBy s.plan os),
    number_from-Lists (suc n) ss a.1,
  )

-- The ranked plans are the given ones in an order in which each may stand before the next.
pub record Ranking (ps : List CandidatePlan) (os : List Objective) (c : DeclaredConstraints)
    (ranked : List RankedPlan) : Type 0 where
  pub order : List CandidatePlan
  pub same : Perm ps order
  pub sorted : InOrder os c order
  pub listed : Lists os c 1 order ranked

-- The ranking lists exactly the given plans, each as often as it was given, with ranks that count up
-- from one. Of two neighbours the first is better at the first declared objective at which they
-- differ (smaller latency, transfer bytes and power; larger throughput, reserve, cache affinity
-- and hotness), or they differ at none and its devices are not after those of the second. Each
-- entry has its plan's name and devices, and each objective's value: the plan's fact, where it is
-- missing 2^64 - 1 if less is better and else 0; the reserve is what the assignments
-- leave free of the declared device budgets, added up and cut off at 2^64 - 1.
pub rank_plans-Ranking :
    (ps : List CandidatePlan) (os : List Objective) (c : DeclaredConstraints)
    → Ranking ps os c (rank_plans ps os c)
unfolding rank_plans
rank_plans-Ranking ps os c =
    let scored = sort_by os (score_all os c ps) in
    let own = sort-AllScored os c ps in
    record {
      order = plans_of scored;
      same = sort-Perm os c ps;
      sorted = in_order os c scored own (sort-Sorted os (score_all os c ps));
      listed = number_from-Lists os c 0 scored own;
    }
