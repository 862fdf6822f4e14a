-- ===== src/Policy/Sorting.antt =====
-- The sort of the ranking (crates/host-coordinator/src/policy.rs, `rank_plans`): it leaves no entry
-- worse than the next by the code's comparator, and keeps the plans.
use Prim.Native.Nat.{Ordering}
use Prim.Native.Nat.Ordering.{lt, eq, gt}
use mathlib.Core.List.{Perm}
use mathlib.Core.List.Perm
use hosts.Base.{ℕ, List, [], ◌∷◌, ◌≡◌, ◌≢◌, refl, arith}
use hosts.Base.Order.{flip, compare-flip}
use hosts.Identity.Device.{PhysicalDeviceId, device_ord}
use hosts.Policy.{
  Objective, ObjectiveDirection, minimize, maximize, direction, DeclaredConstraints, CandidatePlan,
}
use hosts.Policy.Ranking.{
  Scored, compare_value, compare_values, compare_devices, compare_scored, insert_scored, sort_by,
  score, score_all,
}

value-flip : (d : ObjectiveDirection) (a b : ℕ) → compare_value d b a ≡ flip (compare_value d a b)
value-flip minimize a b = compare-flip a b
value-flip maximize a b = compare-flip b a

values-flip :
    (os : List Objective) (a b : List ℕ) → compare_values os b a ≡ flip (compare_values os a b)
unfolding compare_values
values-flip [] a b = refl
values-flip (o ∷ os) [] [] = refl
values-flip (o ∷ os) [] (y ∷ ys) = refl
values-flip (o ∷ os) (x ∷ xs) [] = refl
values-flip (o ∷ os) (x ∷ xs) (y ∷ ys) =
    ground (arith, value-flip (direction o) x y, values-flip os xs ys)

devices-flip : (a b : List PhysicalDeviceId) → compare_devices b a ≡ flip (compare_devices a b)
unfolding compare_devices
devices-flip [] [] = refl
devices-flip [] (y ∷ ys) = refl
devices-flip (x ∷ xs) [] = refl
devices-flip (x ∷ xs) (y ∷ ys) = ground (arith, device_ord.cmp_flip x y, devices-flip xs ys)

abbrev pub plans_of : List Scored → List CandidatePlan
plans_of [] = []
plans_of (s ∷ ss) = s.plan ∷ plans_of ss

module _ (os : List Objective) where
  scored-flip : (a b : Scored) → compare_scored os b a ≡ flip (compare_scored os a b)
  unfolding compare_scored
  scored-flip a b =
      ground (arith, values-flip os a.values b.values, devices-flip a.devices b.devices)

  -- No plan is worse than the next one, by the objectives in order and then by the devices.
  abbrev pub Sorted : List Scored → Type 0
  Sorted [] = Unit
  Sorted (x ∷ []) = Unit
  Sorted (x ∷ y ∷ ys) = (compare_scored os x y ≢ gt) × Sorted (y ∷ ys)

  insert_after :
      (y x : Scored) (ys : List Scored)
      → compare_scored os y x ≢ gt
      → Sorted (y ∷ ys)
      → Sorted (insert_scored os x ys)
      → Sorted (y ∷ insert_scored os x ys)
  unfolding insert_scored
  insert_after y x [] n s t = (n, t)
  insert_after y x (z ∷ zs) n s t = at (compare_scored os x z) refl
    where
      at : (o : Ordering) → compare_scored os x z ≡ o → Sorted (y ∷ insert_scored os x (z ∷ zs))
      at lt e = ground (arith, e)
      at eq e = ground (arith, e)
      at gt e = ground (arith, e)

  rest-Sorted : (y : Scored) (ys : List Scored) → Sorted (y ∷ ys) → Sorted ys
  rest-Sorted y [] s = tt
  rest-Sorted y (z ∷ zs) s = s.1

  insert-Sorted : (x : Scored) (ys : List Scored) → Sorted ys → Sorted (insert_scored os x ys)
  unfolding insert_scored
  insert-Sorted x [] s = tt
  insert-Sorted x (y ∷ ys) s =
      at (insert-Sorted x ys (rest-Sorted y ys s)) (compare_scored os x y) refl
    where
      at :
          Sorted (insert_scored os x ys)
          → (o : Ordering) → compare_scored os x y ≡ o
          → Sorted (insert_scored os x (y ∷ ys))
      at ih lt e = ground (arith, e, s)
      at ih eq e = ground (arith, e, s)
      at ih gt e =
          let n : compare_scored os y x ≢ gt = λ h. ground (arith, e, h, scored-flip x y) in
          rw (insert_scored, e) (insert_after y x ys n s ih)

  pub sort-Sorted : (xs : List Scored) → Sorted (sort_by os xs)
  unfolding sort_by
  sort-Sorted [] = tt
  sort-Sorted (x ∷ xs) = insert-Sorted x (sort_by os xs) (sort-Sorted xs)

  insert-Perm :
      (x : Scored) (ys : List Scored)
      → Perm (x.plan ∷ plans_of ys) (plans_of (insert_scored os x ys))
  unfolding insert_scored
  insert-Perm x [] = Perm.refl (x.plan ∷ [])
  insert-Perm x (y ∷ ys) = at (insert-Perm x ys) (compare_scored os x y) refl
    where
      at :
          Perm (x.plan ∷ plans_of ys) (plans_of (insert_scored os x ys))
          → (o : Ordering) → compare_scored os x y ≡ o
          → Perm (x.plan ∷ y.plan ∷ plans_of ys) (plans_of (insert_scored os x (y ∷ ys)))
      at ih lt e = rw (insert_scored, e) (Perm.refl (x.plan ∷ y.plan ∷ plans_of ys))
      at ih eq e = rw (insert_scored, e) (Perm.refl (x.plan ∷ y.plan ∷ plans_of ys))
      at ih gt e =
          rw (insert_scored, e)
            (Perm.trans (Perm.swap y.plan x.plan (plans_of ys)) (Perm.cons y.plan ih))

  module _ (c : DeclaredConstraints) where
    pub sort-Perm : (ps : List CandidatePlan) → Perm ps (plans_of (sort_by os (score_all os c ps)))
    unfolding sort_by score
    sort-Perm [] = Perm.refl []
    sort-Perm (p ∷ ps) =
        Perm.trans (Perm.cons p (sort-Perm ps))
          (insert-Perm (score os c p) (sort_by os (score_all os c ps)))

    -- Each entry carries the values of its own plan.
    abbrev pub AllScored : List Scored → Type 0
    AllScored [] = Unit
    AllScored (s ∷ ss) = (s ≡ score os c s.plan) × AllScored ss

    insert-AllScored :
        (x : Scored) (ys : List Scored)
        → x ≡ score os c x.plan
        → AllScored ys
        → AllScored (insert_scored os x ys)
    unfolding insert_scored
    insert-AllScored x [] e h = (e, tt)
    insert-AllScored x (y ∷ ys) e h = at (insert-AllScored x ys e h.1) (compare_scored os x y) refl
      where
        at :
            AllScored (insert_scored os x ys)
            → (o : Ordering) → compare_scored os x y ≡ o
            → AllScored (insert_scored os x (y ∷ ys))
        at ih lt k = rw (insert_scored, k) (e, h)
        at ih eq k = rw (insert_scored, k) (e, h)
        at ih gt k = rw (insert_scored, k) (h.0, ih)

    pub sort-AllScored : (ps : List CandidatePlan) → AllScored (sort_by os (score_all os c ps))
    unfolding sort_by score
    sort-AllScored [] = tt
    sort-AllScored (p ∷ ps) =
        insert-AllScored (score os c p) (sort_by os (score_all os c ps)) refl (sort-AllScored ps)
