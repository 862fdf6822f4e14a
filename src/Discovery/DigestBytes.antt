-- ===== src/Discovery/DigestBytes.antt =====
-- The size of a digest (crates/host-coordinator/src/discovery.rs, `Sha256::finalize`).
use hosts.Base.{
  ℕ, zero, suc, ◌+◌, ◌/◌, ◌<◌, List, ◌++◌, length, length-append, ◌≡◌, refl, arith, All, All-append,
}
use hosts.Discovery.Sha256.{Working, be_bytes, output_bytes, digest}

-- A list of so many bytes.
pub record Bytes (n : ℕ) (xs : List ℕ) : Type 0 where
  pub size : length xs ≡ n
  pub small : All (λ (b : ℕ). b < 256) xs

append-Bytes :
    {n k : ℕ} {xs ys : List ℕ} (m : ℕ) → Bytes n xs → Bytes k ys → m ≡ n + k → Bytes m (xs ++ ys)
append-Bytes {xs = xs} {ys} m h l e = record {
  size = omega (arith, h.size, l.size, e, length-append {0} xs ys);
  small = All-append _ xs ys h.small l.small;
}

be_bytes-Bytes : (w v : ℕ) → Bytes w (be_bytes w v)
unfolding be_bytes
be_bytes-Bytes zero v = record { size = refl; small = tt }
be_bytes-Bytes (suc w) v =
    append-Bytes (suc w) (be_bytes-Bytes w (v / 256))
      (record { size = refl; small = (omega arith, tt) }) (omega arith)

output_bytes-Bytes : (s : Working) → Bytes 32 (output_bytes s)
unfolding output_bytes
output_bytes-Bytes s =
    let b = be_bytes-Bytes 4 in
    let g = append-Bytes 8 (b s.g) (b s.h) refl in
    let f = append-Bytes 12 (b s.f) g refl in
    let e = append-Bytes 16 (b s.e) f refl in
    let d = append-Bytes 20 (b s.d) e refl in
    let c = append-Bytes 24 (b s.c) d refl in
    let a = append-Bytes 28 (b s.b) c refl in append-Bytes 32 (b s.a) a refl

-- A digest is 32 bytes, each below 256.
pub digest-Bytes : (m : List ℕ) → Bytes 32 (digest m)
unfolding digest
digest-Bytes m = output_bytes-Bytes _
