-- ===== src/Base/Order.antt =====
-- The bound `K: Ord`: a three-way comparison with the laws of a total order.
use Prim.Native.Nat.{ℕ, compare, Ordering}
use Prim.Native.Nat.Ordering.{lt, eq, gt}
use mathlib.Core.Path.{◌≡◌, refl}
use mathlib.Core.List.{[], ◌∷◌}
use native.Mathlib.Omega.{arith}
use hosts.Base.Text.{Str}

abbrev pub flip : Ordering → Ordering
flip lt = gt
flip eq = eq
flip gt = lt

-- The second test decides where the first finds its arguments equal (`Ordering::then`).
abbrev pub and_then : Ordering → Ordering → Ordering
and_then lt o = lt
and_then eq o = o
and_then gt o = gt

pub record Ord {ℓ} (K : Type ℓ) : Type ℓ where
  pub cmp : K → K → Ordering
  pub cmp_self : (a : K) → cmp a a ≡ eq
  pub eq_of_cmp : (a b : K) → cmp a b ≡ eq → a ≡ b
  pub cmp_flip : (a b : K) → cmp b a ≡ flip (cmp a b)
  pub cmp_trans : (a b c : K) → cmp a b ≡ lt → cmp b c ≡ lt → cmp a c ≡ lt

pub compare_self : (a : ℕ) → compare a a ≡ eq
compare_self a = ground arith

pub compare-flip : (a b : ℕ) → compare b a ≡ flip (compare a b)
compare-flip a b = ground arith

pub eq_of_compare : (a b : ℕ) → compare a b ≡ eq → a ≡ b
eq_of_compare a b h = ground arith

pub compare_trans : (a b c : ℕ) → compare a b ≡ lt → compare b c ≡ lt → compare a c ≡ lt
compare_trans a b c h k = ground arith

instance abbrev pub nat_ord : Ord ℕ
nat_ord = record {
  cmp = compare;
  cmp_self = compare_self;
  eq_of_cmp = eq_of_compare;
  cmp_flip = compare-flip;
  cmp_trans = compare_trans;
}

-- Strings compare byte by byte, a proper prefix first.
pub str_cmp : Str → Str → Ordering
str_cmp [] [] = eq
str_cmp [] (y ∷ ys) = lt
str_cmp (x ∷ xs) [] = gt
str_cmp (x ∷ xs) (y ∷ ys) = and_then (compare x y) (str_cmp xs ys)

pub str_cmp_self : (a : Str) → str_cmp a a ≡ eq
unfolding str_cmp
str_cmp_self [] = refl
str_cmp_self (x ∷ xs) = ground (arith, str_cmp_self xs)

pub str_eq_of_cmp : (a b : Str) → str_cmp a b ≡ eq → a ≡ b
unfolding str_cmp
str_eq_of_cmp [] [] h = refl
str_eq_of_cmp [] (y ∷ ys) h = cc
str_eq_of_cmp (x ∷ xs) [] h = cc
str_eq_of_cmp (x ∷ xs) (y ∷ ys) h = ground (arith, str_eq_of_cmp xs ys)

pub str_cmp-flip : (a b : Str) → str_cmp b a ≡ flip (str_cmp a b)
unfolding str_cmp
str_cmp-flip [] [] = refl
str_cmp-flip [] (y ∷ ys) = refl
str_cmp-flip (x ∷ xs) [] = refl
str_cmp-flip (x ∷ xs) (y ∷ ys) = ground (arith, str_cmp-flip xs ys)

pub str_cmp_trans : (a b c : Str) → str_cmp a b ≡ lt → str_cmp b c ≡ lt → str_cmp a c ≡ lt
unfolding str_cmp
str_cmp_trans [] [] c h k = cc
str_cmp_trans [] (y ∷ ys) [] h k = cc
str_cmp_trans [] (y ∷ ys) (z ∷ zs) h k = refl
str_cmp_trans (x ∷ xs) [] c h k = cc
str_cmp_trans (x ∷ xs) (y ∷ ys) [] h k = cc
str_cmp_trans (x ∷ xs) (y ∷ ys) (z ∷ zs) h k = ground (arith, str_cmp_trans xs ys zs)

instance unfoldable pub str_ord : Ord Str
unfolding str_cmp
str_ord = record {
  cmp = str_cmp;
  cmp_self = str_cmp_self;
  eq_of_cmp = str_eq_of_cmp;
  cmp_flip = str_cmp-flip;
  cmp_trans = str_cmp_trans;
}

module _ {ℓ κ} {A : Type ℓ} {B : Type κ} (a : Ord A) (b : Ord B) where
  abbrev pub pair_cmp : A × B → A × B → Ordering
  pair_cmp x y = and_then (a.cmp x.0 y.0) (b.cmp x.1 y.1)

  pub pair_cmp_self : (x : A × B) → pair_cmp x x ≡ eq
  pair_cmp_self x = ground (arith, a.cmp_self x.0, b.cmp_self x.1)

  pub pair_eq_of_cmp : (x y : A × B) → pair_cmp x y ≡ eq → x ≡ y
  pair_eq_of_cmp x y h = ground (arith, a.eq_of_cmp x.0 y.0, b.eq_of_cmp x.1 y.1)

  pub pair_cmp-flip : (x y : A × B) → pair_cmp y x ≡ flip (pair_cmp x y)
  pair_cmp-flip x y = ground (arith, a.cmp_flip x.0 y.0, b.cmp_flip x.1 y.1)

  pub pair_cmp_trans : (x y z : A × B) → pair_cmp x y ≡ lt → pair_cmp y z ≡ lt → pair_cmp x z ≡ lt
  pair_cmp_trans x y z h k = grind (
    arith,
    a.eq_of_cmp x.0 y.0,
    a.eq_of_cmp y.0 z.0,
    a.cmp_self x.0,
    a.cmp_trans x.0 y.0 z.0,
    b.cmp_trans x.1 y.1 z.1,
  )

  -- Derived comparison of a two-field struct: field by field, in declaration order.
  unfoldable pub pair_ord : Ord (A × B)
  pair_ord = record {
    cmp = pair_cmp;
    cmp_self = pair_cmp_self;
    eq_of_cmp = pair_eq_of_cmp;
    cmp_flip = pair_cmp-flip;
    cmp_trans = pair_cmp_trans;
  }

-- Comparison by an injective key, as `derive` does for enums: the variant's index, then its fields.
unfoldable pub key_ord {ℓ κ} :
    {A : Type ℓ} {B : Type κ} (f : A → B) → ((x y : A) → f x ≡ f y → x ≡ y) → Ord B → Ord A
key_ord f inj b = record {
  cmp = λ x y. b.cmp (f x) (f y);
  cmp_self = λ x. b.cmp_self (f x);
  eq_of_cmp = λ x y h. inj x y (b.eq_of_cmp (f x) (f y) h);
  cmp_flip = λ x y. b.cmp_flip (f x) (f y);
  cmp_trans = λ x y z. b.cmp_trans (f x) (f y) (f z);
}
