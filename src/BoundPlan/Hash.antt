-- ===== src/BoundPlan/Hash.antt =====
-- The spelling of hashes (crates/host-coordinator/src/bound_plan.rs): what `bind` writes is what
-- `admit` accepts.
use hosts.Base.{
  ℕ, ◌*◌, ◌/◌, ◌%◌, ◌<◌, true, List, [], ◌∷◌, ◌++◌, bytes, length, ◌==◌, ◌≡◌, refl, arith, All,
}
use hosts.BoundPlan.{BoundDistributedPlan, plan_bytes}
use hosts.BoundPlan.Admit.{strip_prefix, is_hex_digit, all_hex, is_sha256_hex, hex_digit, hex_lower}
use hosts.BoundPlan.Bind.{hashed}
use hosts.Discovery.Sha256.{digest}
use hosts.Discovery.DigestBytes.{Bytes, digest-Bytes}

hex_digit-is_hex : (d : ℕ) → d < 16 → is_hex_digit (hex_digit d) ≡ true
hex_digit-is_hex d h = ground arith

hex_lower-all_hex : (bs : List ℕ) → All (λ (b : ℕ). b < 256) bs → all_hex (hex_lower bs) ≡ true
unfolding hex_lower
hex_lower-all_hex [] h = refl
hex_lower-all_hex (b ∷ bs) h =
    rw
      (
        hex_digit-is_hex (b / 16) (omega (arith, h.0)),
        hex_digit-is_hex (b % 16) (omega arith),
        hex_lower-all_hex bs h.1,
      )
      refl

length-hex_lower : (bs : List ℕ) → length (hex_lower bs) ≡ 2 * length bs
unfolding hex_lower
length-hex_lower [] = refl
length-hex_lower (b ∷ bs) = omega (arith, length-hex_lower bs)

spelled : (bs : List ℕ) → Bytes 32 bs → is_sha256_hex (bytes "sha256:" ++ hex_lower bs) ≡ true
unfolding is_sha256_hex strip_prefix
spelled bs h =
    let n : (length (hex_lower bs) == 64) ≡ true = ground (arith, h.size, length-hex_lower bs) in
    rw (n, hex_lower-all_hex bs h.small) refl

-- If the digest function gives 32 bytes, the hash of a bound plan is spelled as admission demands;
-- the digest of discovery snapshots gives 32 bytes.
pub hashed-is_sha256_hex :
    (sha256 : List ℕ → List ℕ) (plan : BoundDistributedPlan)
    → ((m : List ℕ) → Bytes 32 (sha256 m))
    → (is_sha256_hex (hashed sha256 plan).bound_distributed_plan_hash ≡ true)
      × (is_sha256_hex (hashed digest plan).bound_distributed_plan_hash ≡ true)
unfolding hashed
hashed-is_sha256_hex sha256 plan h = (
  spelled (sha256 (plan_bytes plan)) (h (plan_bytes plan)),
  spelled (digest (plan_bytes plan)) (digest-Bytes (plan_bytes plan)),
)
