-- ===== src/Base/Collections.antt =====
-- `BTreeMap` and `BTreeSet` as lists in ascending key order, with the library's operations.
use Prim.Native.Nat.Ordering.{lt, eq, gt}
use mathlib.Core.Path.{◌≡◌, refl}
use mathlib.Core.Bool.{Bool, true, false, ◌||◌}
use mathlib.Core.Option.{Option, none, some}
use mathlib.Core.List.{List, [], ◌∷◌}
use native.Mathlib.Omega.{arith}
use mathlib.Core.Logic.{inl, inr}
use hosts.Base.Lists.{Member}
use hosts.Base.Tests.{if◌then◌else◌}
use hosts.Base.Order.{Ord}

-- Equality of keys, as the collections test it.
module _ {K : Type 0} ⦃o : Ord K⦄ where
  abbrev pub eqb : K → K → Bool
  eqb a b = elim (o.cmp a b) [ eq ↦ true | _ ↦ false ]

  pub eqb_self : (a : K) → eqb a a ≡ true
  eqb_self a = ground (arith, o.cmp_self a)

  pub eq_of_eqb : (a b : K) → eqb a b ≡ true → a ≡ b
  eq_of_eqb a b h = ground (arith, o.eq_of_cmp a b)

  pub ne_of_eqb : (a b : K) → eqb a b ≡ false → ¬ (a ≡ b)
  ne_of_eqb a b h e = ground (arith, o.cmp_self a)

  pub eqb_comm : (a b : K) → eqb a b ≡ eqb b a
  eqb_comm a b = ground (arith, o.cmp_flip a b)

module _ {K V : Type 0} ⦃o : Ord K⦄ where
  -- `BTreeMap::get`.
  unfoldable pub get : K → List (K × V) → Option V
  get k [] = none
  get k ((j, v) ∷ m) = if eqb k j then some v else get k m

  -- `BTreeMap::insert`: an equal key takes the new value.
  unfoldable pub insert : K → V → List (K × V) → List (K × V)
  insert k v [] = (k, v) ∷ []
  insert k v ((j, w) ∷ m) = elim (o.cmp k j) [
    | lt ↦ (k, v) ∷ (j, w) ∷ m
    | eq ↦ (k, v) ∷ m
    | gt ↦ (j, w) ∷ insert k v m
  ]

  -- `BTreeMap::remove`.
  unfoldable pub remove : K → List (K × V) → List (K × V)
  remove k [] = []
  remove k ((j, v) ∷ m) = if eqb k j then m else (j, v) ∷ remove k m

  -- A lookup after a write sees the new value under its key and the old one elsewhere.
  pub get-insert :
      (j k : K) (v : V) (m : List (K × V))
      → get j (insert k v m) ≡ (if eqb j k then some v else get j m)
  unfolding get insert
  get-insert j k v [] = refl
  get-insert j k v ((i, w) ∷ m) = ground (
    arith,
    get-insert j k v m,
    o.eq_of_cmp k i,
    o.eq_of_cmp j k,
    o.eq_of_cmp j i,
    o.cmp_self k,
    o.cmp_self j,
  )

  -- `BTreeMap::keys`.
  abbrev pub keys : List (K × V) → List K
  keys [] = []
  keys ((j, w) ∷ m) = j ∷ keys m

  -- `BTreeMap::values`.
  abbrev pub values : List (K × V) → List V
  values [] = []
  values ((j, w) ∷ m) = w ∷ values m

module _ {K : Type 0} ⦃o : Ord K⦄ where
  -- `BTreeSet::contains`.
  unfoldable pub contains : K → List K → Bool
  contains k [] = false
  contains k (j ∷ s) = eqb k j || contains k s

  -- `BTreeSet::insert`.
  unfoldable pub add : K → List K → List K
  add k [] = k ∷ []
  add k (j ∷ s) = elim (o.cmp k j) [ lt ↦ k ∷ j ∷ s | eq ↦ j ∷ s | gt ↦ j ∷ add k s ]

  -- `BTreeSet::extend`, one `insert` for each entry in turn.
  unfoldable pub extend : List K → List K → List K
  unfolding add
  extend s [] = s
  extend s (k ∷ ks) = extend (add k s) ks

  -- `Iterator::collect` into a set.
  unfoldable pub collect : List K → List K
  unfolding extend
  collect ks = extend [] ks

  -- `BTreeSet::difference`.
  unfoldable pub difference : List K → List K → List K
  unfolding contains
  difference [] t = []
  difference (k ∷ s) t = if contains k t then difference s t else k ∷ difference s t

  pub contains-add : (j k : K) (s : List K) → contains j (add k s) ≡ (eqb j k || contains j s)
  unfolding contains add
  contains-add j k [] = refl
  contains-add j k (i ∷ s) = ground (arith, contains-add j k s, o.eq_of_cmp k i)

  pub add_not_nil : (k : K) (s : List K) → ¬ (add k s ≡ [])
  unfolding add
  add_not_nil k [] h = cc
  add_not_nil k (j ∷ s) h = ground arith

  pub contains-extend :
      (j : K) (s ks : List K) → contains j (extend s ks) ≡ (contains j s || contains j ks)
  unfolding extend contains
  contains-extend j s [] = ground arith
  contains-extend j s (k ∷ ks) = ground (arith, contains-extend j (add k s) ks, contains-add j k s)

  -- Membership by the order's test is membership.
  pub Member-contains : (k : K) (s : List K) → contains k s ≡ true → Member k s
  unfolding contains
  Member-contains k [] h = cc
  Member-contains k (j ∷ s) h = ground (arith, Member-contains k s, o.eq_of_cmp k j)

  pub contains-Member : (k : K) (s : List K) → Member k s → contains k s ≡ true
  unfolding contains
  contains-Member k [] h = absurd h
  contains-Member k (j ∷ s) (inl e) = ground (arith, o.cmp_self j)
  contains-Member k (j ∷ s) (inr m) = ground (arith, contains-Member k s m)

  pub contains-difference :
      (k : K) (s t : List K)
      → contains k (difference s t) ≡ (if contains k t then false else contains k s)
  unfolding contains difference
  contains-difference k [] t = ground arith
  contains-difference k (j ∷ s) t = ground (arith, contains-difference k s t, o.eq_of_cmp k j)

module _ {K V : Type 0} ⦃o : Ord K⦄ where
  -- `Iterator::collect` into a map: one `insert` for each entry in turn.
  unfoldable pub collect_onto : (K → V) → List K → List (K × V) → List (K × V)
  unfolding insert
  collect_onto f [] m = m
  collect_onto f (k ∷ ks) m = collect_onto f ks (insert k (f k) m)

  pub get-collect_onto :
      (j : K) (f : K → V) (ks : List K) (m : List (K × V))
      → get j (collect_onto f ks m) ≡ (if contains j ks then some (f j) else get j m)
  unfolding collect_onto contains
  get-collect_onto j f [] m = refl
  get-collect_onto j f (k ∷ ks) m =
      ground
        (arith, get-collect_onto j f ks (insert k (f k) m), get-insert j k (f k) m, o.eq_of_cmp j k)

  -- A key of the map is one under which it holds a value, and the other way round.
  pub contains-keys :
      (k : K) (m : List (K × V))
      → contains k (keys m) ≡ elim (get k m) [ none ↦ false | some v ↦ true ]
  unfolding contains get
  contains-keys k [] = refl
  contains-keys k ((j, w) ∷ m) = ground (arith, contains-keys k m)
