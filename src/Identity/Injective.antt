-- ===== src/Identity/Injective.antt =====
-- The byte helpers are prefix codes: what they append can be cut off again in one way only.
use mathlib.Core.List.{append_assoc}
use native.Mathlib.Nat.{pow-suc}
use hosts.Base.{
  ℕ, zero, suc, ◌/◌, ◌^◌, ◌<◌, ◌≡◌, refl, sym, ◌∙◌, ap, List, [], ◌∷◌, ◌++◌, Str, length, arith,
  All, Bool, true, false,
}
use hosts.Base.Word.{u64_mod}
use hosts.Identity.Bytes.{le_bytes, push_u64, push_u32, push_bool, push_str, push_all, push_list}

-- On values with `P`, an encoding followed by anything determines the value and what follows.
abbrev pub IsPrefixCode : {A : Type 0} → (A → Type 0) → (A → List ℕ) → Type 0
IsPrefixCode {A} P enc =
    (a b : A) (r s : List ℕ) → P a → P b → enc a ++ r ≡ enc b ++ s → (a ≡ b) × (r ≡ s)

pub cons_eq : {x y : ℕ} {r s : List ℕ} → x ∷ r ≡ y ∷ s → (x ≡ y) × (r ≡ s)
cons_eq h = ground arith

le_bytes_code :
    (w a b : ℕ) (r s : List ℕ)
    → a < 256 ^ w
    → b < 256 ^ w
    → le_bytes w a ++ r ≡ le_bytes w b ++ s
    → (a ≡ b) × (r ≡ s)
unfolding le_bytes
le_bytes_code zero a b r s ha hb h = (omega arith, h)
le_bytes_code (suc w) a b r s ha hb h =
    let (e, t) = cons_eq h in
    let (q, u) =
      le_bytes_code w (a / 256) (b / 256) r s (omega (arith, pow-suc 256 w))
        (omega (arith, pow-suc 256 w)) t in
    (omega arith, u)

abbrev pub IsU64 : ℕ → Type 0
IsU64 v = v < u64_mod

pub push_u64-IsPrefixCode : IsPrefixCode IsU64 push_u64
unfolding push_u64
push_u64-IsPrefixCode a b r s ha hb h = le_bytes_code 8 a b r s ha hb h

abbrev pub IsU32 : ℕ → Type 0
IsU32 v = v < 2 ^ 32

pub push_u32-IsPrefixCode : IsPrefixCode IsU32 push_u32
unfolding push_u32
push_u32-IsPrefixCode a b r s ha hb h = le_bytes_code 4 a b r s ha hb h

pub push_bool-IsPrefixCode : IsPrefixCode (λ b. Unit {0}) push_bool
unfolding push_bool
push_bool-IsPrefixCode true true r s ha hb h = ground arith
push_bool-IsPrefixCode true false r s ha hb h = ground arith
push_bool-IsPrefixCode false true r s ha hb h = ground arith
push_bool-IsPrefixCode false false r s ha hb h = ground arith

append_cancel : (a b r s : Str) → length a ≡ length b → a ++ r ≡ b ++ s → (a ≡ b) × (r ≡ s)
append_cancel [] [] r s e h = (refl, h)
append_cancel [] (y ∷ ys) r s e h = absurd (omega arith)
append_cancel (x ∷ xs) [] r s e h = absurd (omega arith)
append_cancel (x ∷ xs) (y ∷ ys) r s e h =
    let (p, t) = cons_eq h in
    let (q, u) = append_cancel xs ys r s (omega arith) t in (ground arith, u)

-- The length of a text fits a 64-bit word.
abbrev pub IsStr : Str → Type 0
IsStr s = IsU64 (length s)

pub push_str-IsPrefixCode : IsPrefixCode IsStr push_str
unfolding push_str
push_str-IsPrefixCode a b r s ha hb h =
    let (n, t) =
      push_u64-IsPrefixCode (length a) (length b) (a ++ r) (b ++ s) ha hb (
        sym (append_assoc (push_u64 (length a)) a r)
        ∙ h
        ∙ append_assoc (push_u64 (length b)) b s) in
    append_cancel a b r s n t

module _ {A : Type 0} (P : A → Type 0) (enc : A → List ℕ) (code : IsPrefixCode P enc) where
  push_all_code :
      (xs ys : List A) (r s : List ℕ)
      → length xs ≡ length ys
      → All P xs
      → All P ys
      → push_all enc xs ++ r ≡ push_all enc ys ++ s
      → (xs ≡ ys) × (r ≡ s)
  unfolding push_all
  push_all_code [] [] r s n p q h = (refl, h)
  push_all_code [] (y ∷ ys) r s n p q h = absurd (omega arith)
  push_all_code (x ∷ xs) [] r s n p q h = absurd (omega arith)
  push_all_code (x ∷ xs) (y ∷ ys) r s n p q h =
      let (e, t) = code x y (push_all enc xs ++ r) (push_all enc ys ++ s) p.0 q.0 (
        sym (append_assoc (enc x) (push_all enc xs) r)
        ∙ h
        ∙ append_assoc (enc y) (push_all enc ys) s) in
      let (es, u) = push_all_code xs ys r s (omega arith) p.1 q.1 t in (ground arith, u)

  pub push_list-IsPrefixCode : IsPrefixCode (λ xs. IsU64 (length xs) × All P xs) (push_list enc)
  unfolding push_list
  push_list-IsPrefixCode xs ys r s p q h =
      let (n, t) =
        push_u64-IsPrefixCode (length xs) (length ys) (push_all enc xs ++ r) (push_all enc ys ++ s)
          p.0 q.0
          (sym (append_assoc (push_u64 (length xs)) (push_all enc xs) r)
            ∙ h
            ∙ append_assoc (push_u64 (length ys)) (push_all enc ys) s) in
      push_all_code xs ys r s n p.1 q.1 t

module _ {A B : Type 0} (P : A → Type 0) (enc : A → List ℕ) (code : IsPrefixCode P enc) where
  -- One value after the other.
  pub pair_code :
      (Q : B → Type 0) (enc' : B → List ℕ)
      → IsPrefixCode Q enc'
      → IsPrefixCode {A = A × B} (λ x. P x.0 × Q x.1) (λ x. enc x.0 ++ enc' x.1)
  pair_code Q enc' code' a b r s p q h =
      let (e, t) =
        code a.0 b.0 (enc' a.1 ++ r) (enc' b.1 ++ s) p.0 q.0
          (sym (append_assoc (enc a.0) (enc' a.1) r) ∙ h ∙ append_assoc (enc b.0) (enc' b.1) s) in
      let (e', u) = code' a.1 b.1 r s p.1 q.1 t in (ground arith, u)

  -- A type encoded through an injective key.
  pub key_code :
      (f : B → A)
      → ((x y : B) → f x ≡ f y → x ≡ y)
      → IsPrefixCode {A = B} (λ x. P (f x)) (λ x. enc (f x))
  key_code f inj a b r s p q h = let (e, t) = code (f a) (f b) r s p q h in (inj a b e, t)

-- A prefix code is injective.
pub code_injective :
    {A : Type 0} (P : A → Type 0) (enc : A → List ℕ)
    → IsPrefixCode P enc
    → (a b : A) → P a
    → P b
    → enc a ≡ enc b
    → a ≡ b
code_injective P enc code a b p q h = (code a b [] [] p q (ap (λ v. v ++ []) h)).0

-- A prefix code with the values that it is for.
pub record Code (A : Type 0) : Type 1 where
  pub Fits : A → Type 0
  pub enc : A → List ℕ
  pub determined : IsPrefixCode Fits enc

abbrev pub word : Code ℕ
word = record { Fits = IsU64; enc = push_u64; determined = push_u64-IsPrefixCode }

abbrev pub word32 : Code ℕ
word32 = record { Fits = IsU32; enc = push_u32; determined = push_u32-IsPrefixCode }

abbrev pub flag : Code Bool
flag = record { Fits = λ b. Unit {0}; enc = push_bool; determined = push_bool-IsPrefixCode }

abbrev pub text : Code Str
text = record { Fits = IsStr; enc = push_str; determined = push_str-IsPrefixCode }

abbrev pub list : {A : Type 0} → Code A → Code (List A)
list c = record {
  Fits = λ xs. IsU64 (length xs) × All c.Fits xs;
  enc = push_list c.enc;
  determined = push_list-IsPrefixCode c.Fits c.enc c.determined;
}

infixr 60 ◌then_code◌
abbrev pub ◌then_code◌ : {A B : Type 0} → Code A → Code B → Code (A × B)
c then_code d = record {
  Fits = λ x. c.Fits x.0 × d.Fits x.1;
  enc = λ x. c.enc x.0 ++ d.enc x.1;
  determined = pair_code c.Fits c.enc c.determined d.Fits d.enc d.determined;
}

abbrev pub by_key : {A B : Type 0} (f : B → A) → ((x y : B) → f x ≡ f y → x ≡ y) → Code A → Code B
by_key f inj c = record {
  Fits = λ x. c.Fits (f x);
  enc = λ x. c.enc (f x);
  determined = key_code c.Fits c.enc c.determined f inj;
}

-- Values with equal codes are equal.
pub enc_injective :
    {A : Type 0} (c : Code A) (a b : A) → c.Fits a → c.Fits b → c.enc a ≡ c.enc b → a ≡ b
enc_injective c = code_injective c.Fits c.enc c.determined
