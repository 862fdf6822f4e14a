-- ===== src/Discovery/Blocks.antt =====
-- The loop over whole blocks of `Sha256` in crates/host-coordinator/src/discovery.rs.
use hosts.Base.{
  ℕ, zero, suc, ◌%◌, ◌≤◌, ◌<◌, true, false, List, [], ◌∷◌, ◌++◌, length, take, drop, length-drop,
  length-append, take-append_within, drop-append_within, leb, leb→le, leb_false→lt, ◌≡◌, refl, ◌∙◌,
  arith, inl, inr, Bool-cases,
}
use hosts.Discovery.Sha256.{Working, compress, whole_blocks}

-- The loop on all of its input.
abbrev pub blocks : Working → List ℕ → Working × List ℕ
blocks s xs = whole_blocks (length xs) s xs

pub blocks_fuel :
    (n m : ℕ) (s : Working) (xs : List ℕ)
    → length xs ≤ n
    → length xs ≤ m
    → whole_blocks n s xs ≡ whole_blocks m s xs
unfolding whole_blocks
blocks_fuel zero zero s xs a b = refl
blocks_fuel zero (suc m) s xs a b = let e : leb 64 (length xs) ≡ false = ground arith in rw e refl
blocks_fuel (suc n) zero s xs a b = let e : leb 64 (length xs) ≡ false = ground arith in rw e refl
blocks_fuel (suc n) (suc m) s xs a b = elim (Bool-cases (leb 64 (length xs))) [
  | inl e ↦
      let l = leb→le 64 (length xs) e in
      rw e (
        blocks_fuel n m (compress (take 64 xs) s) (drop 64 xs) (omega (arith, length-drop 64 xs))
          (omega (arith, length-drop 64 xs)))
  | inr e ↦ rw e refl
]

pub blocks_step :
    (s : Working) (xs : List ℕ)
    → 64 ≤ length xs
    → blocks s xs ≡ blocks (compress (take 64 xs) s) (drop 64 xs)
unfolding whole_blocks
blocks_step s xs l =
    let e : leb 64 (length xs) ≡ true = ground arith in
    blocks_fuel (length xs) (suc (length xs)) s xs (omega arith) (omega arith)
    ∙ rw e (
        blocks_fuel (length xs) (length (drop 64 xs)) (compress (take 64 xs) s) (drop 64 xs)
          (omega (arith, length-drop 64 xs)) (omega arith))

pub blocks_short : (s : Working) (xs : List ℕ) → length xs < 64 → blocks s xs ≡ (s, xs)
unfolding whole_blocks
blocks_short s xs l =
    let e : leb 64 (length xs) ≡ false = ground arith in
    blocks_fuel (length xs) (suc (length xs)) s xs (omega arith) (omega arith) ∙ rw e refl

-- The loop on a longer input goes on from what it left.
blocks-append_from :
    (n : ℕ) (s : Working) (xs ys : List ℕ)
    → length xs ≤ n
    → blocks s (xs ++ ys) ≡ blocks (blocks s xs).0 ((blocks s xs).1 ++ ys)
blocks-append_from zero s [] ys l = rw (blocks_short s [] (omega arith)) refl
blocks-append_from zero s (x ∷ xs) ys l = absurd (omega arith)
blocks-append_from (suc n) s xs ys l = elim (Bool-cases (leb 64 (length xs))) [
  | inl e ↦
      let k = leb→le 64 (length xs) e in
      let ih =
        blocks-append_from n (compress (take 64 xs) s) (drop 64 xs) ys
          (omega (arith, length-drop 64 xs)) in
      rw
        (
          blocks_step s xs k,
          blocks_step s (xs ++ ys) (omega (arith, length-append xs ys)),
          take-append_within 64 xs ys k,
          drop-append_within 64 xs ys k,
        )
        ih
  | inr e ↦ rw (blocks_short s xs (leb_false→lt 64 (length xs) e)) refl
]

pub blocks-append :
    (s : Working) (xs ys : List ℕ)
    → blocks s (xs ++ ys) ≡ blocks (blocks s xs).0 ((blocks s xs).1 ++ ys)
blocks-append s xs ys = blocks-append_from (length xs) s xs ys (omega arith)

length_rest_from :
    (n : ℕ) (s : Working) (xs : List ℕ) → length xs ≤ n → length (blocks s xs).1 ≡ length xs % 64
length_rest_from zero s [] l = rw (blocks_short s [] (omega arith)) (omega arith)
length_rest_from zero s (x ∷ xs) l = absurd (omega arith)
length_rest_from (suc n) s xs l = elim (Bool-cases (leb 64 (length xs))) [
  | inl e ↦
      let k = leb→le 64 (length xs) e in
      let ih =
        length_rest_from n (compress (take 64 xs) s) (drop 64 xs)
          (omega (arith, length-drop 64 xs)) in
      rw (blocks_step s xs k) (omega (arith, ih, length-drop 64 xs))
  | inr e ↦ let k = leb_false→lt 64 (length xs) e in rw (blocks_short s xs k) (omega arith)
]

pub length_rest : (s : Working) (xs : List ℕ) → length (blocks s xs).1 ≡ length xs % 64
length_rest s xs = length_rest_from (length xs) s xs (omega arith)
