-- ===== src/Transport/Registry.antt =====
-- Which pairs a registry admits (crates/host-coordinator/src/transport.rs, `PeerPairRegistry`).
use hosts.Base.{
  false, List, [], ◌∷◌, none, some, Str, Member, ◌==◌, ◌||◌, ◌≡◌, ◌≢◌, ◌⊎◌, refl, sym, arith, inl,
  inr, Bool-cases, Option-cases,
}
use hosts.Base.Order.{str_ord}
use hosts.Base.Collections.{eqb, eq_of_eqb, eqb_self, get, get-insert}
use hosts.Transport.Records.{peer_copy, host_staged_copy}
use hosts.Transport.Peers.{
  DirectedPair, directed_pair_ord, PeerPairMeasurement, PeerPairRegistry, is_empty_str, admit_pair,
  is_admitted, measurement, select_copy_path,
}

-- A measurement of the pair that names two ends, both rates and its evidence.
pub record Measured (pair : DirectedPair) (m : PeerPairMeasurement) : Type 0 where
  pub of_pair : m.pair ≡ pair
  pub distinct : m.pair.source ≢ m.pair.destination
  pub bandwidth : m.directional_bandwidth_bytes_per_sec ≢ 0
  pub latency : m.latency_nanos ≢ 0
  pub evidence : m.evidence_reference ≢ []

-- `admit_pair` on one measurement after the other, whatever it answers.
abbrev pub admit_all : List PeerPairMeasurement → PeerPairRegistry → PeerPairRegistry
admit_all [] registry = registry
admit_all (m ∷ ms) registry = admit_all ms (admit_pair m registry).0

evidence_given : (s : Str) → is_empty_str s ≡ false → s ≢ []
evidence_given [] h e = absurd (ground arith)
evidence_given (c ∷ cs) h e = absurd (ground arith)

-- What one call adds to the registry, if anything.
admitted_from :
    (m : PeerPairMeasurement) (registry : PeerPairRegistry) (k : DirectedPair)
    (v : PeerPairMeasurement)
    → get k (admit_pair m registry).0 ≡ some v
    → ((v ≡ m) × Measured k v) ⊎ (get k registry ≡ some v)
unfolding admit_pair
admitted_from m registry k v h = elim (Bool-cases (eqb m.pair.source m.pair.destination)) [
  | inl a ↦ inr (ground (arith, a))
  | inr a ↦ elim (Bool-cases (m.directional_bandwidth_bytes_per_sec == 0 || m.latency_nanos == 0)) [
    | inl b ↦ inr (ground (arith, a, b))
    | inr b ↦ elim (Bool-cases (is_empty_str m.evidence_reference)) [
      | inl c ↦ inr (ground (arith, a, b, c))
      | inr c ↦ elim (Bool-cases (eqb k m.pair)) [
        | inr d ↦ inr (ground (arith, a, b, c, d, get-insert k m.pair m registry))
        | inl d ↦
            let e : v ≡ m = ground (arith, a, b, c, d, get-insert k m.pair m registry) in
            let q = eq_of_eqb k m.pair d in
            inl (
              e,
              rw (e, q)
                  (record {
                    of_pair = refl;
                    distinct = λ x. ground (arith, a, x, eqb_self m.pair.destination);
                    bandwidth = λ x. ground (arith, b, x);
                    latency = λ x. ground (arith, b, x);
                    evidence = evidence_given m.evidence_reference c;
                  }),
            )
      ]
    ]
  ]
]

registry_from :
    (ms : List PeerPairMeasurement) (registry : PeerPairRegistry) (k : DirectedPair)
    (v : PeerPairMeasurement)
    → get k (admit_all ms registry) ≡ some v
    → (Member v ms × Measured k v) ⊎ (get k registry ≡ some v)
registry_from [] registry k v h = inr h
registry_from (m ∷ ms) registry k v h = elim (registry_from ms (admit_pair m registry).0 k v h) [
  | inl (n, w) ↦ inl (inr n, w)
  | inr g ↦ elim (admitted_from m registry k v g) [
    | inl (e, w) ↦ inl (inl (sym e), w)
    | inr f ↦ inr f
  ]
]

-- What stands behind a peer copy.
pub record Backed (ms : List PeerPairMeasurement) (pair : DirectedPair) : Type 0 where
  pub behind : PeerPairMeasurement
  pub kept : measurement pair (admit_all ms []) ≡ some behind
  pub given : Member behind ms
  pub measured : Measured pair behind

-- Whatever measurements were offered to a new registry, a peer copy is selected only for a pair with
-- one of these measurements on record: of exactly this pair, between two different partitions, with a
-- bandwidth and a latency that are not zero and with evidence. Otherwise the path is host-staged.
pub select_copy_path-Backed :
    (ms : List PeerPairMeasurement) (pair : DirectedPair)
    → (Backed ms pair × (select_copy_path pair (admit_all ms []) ≡ peer_copy))
      ⊎ ((measurement pair (admit_all ms []) ≡ none)
          × (select_copy_path pair (admit_all ms []) ≡ host_staged_copy))
unfolding select_copy_path is_admitted measurement get
select_copy_path-Backed ms pair = elim (Option-cases (get pair (admit_all ms []))) [
  | inl e ↦ inr (e, ground (arith, e))
  | inr (v, e) ↦ elim (registry_from ms [] pair v e) [
    | inl (n, w) ↦ inl (record { behind = v; kept = e; given = n; measured = w }, ground (arith, e))
    | inr f ↦ absurd (ground arith)
  ]
]
