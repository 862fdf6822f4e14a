-- ===== src/Transport/Peers.antt =====
-- The directed peer pairs of crates/host-coordinator/src/transport.rs: their admission, and the
-- choice of a copy path.
use hosts.Base.{
  ℕ, Bool, true, false, List, [], ◌∷◌, Option, none, some, Str, Result, ok, err, ◌==◌, ◌||◌,
  if◌then◌else◌, ◌≡◌, arith,
}
use hosts.Base.Order.{Ord, str_ord, pair_ord, key_ord}
use hosts.Base.Collections.{eqb, get, insert, keys}
use hosts.BoundPlan.{LogicalPartitionId}
use hosts.Transport.Records.{CopyPath, host_staged_copy, peer_copy}

pub record DirectedPair : Type 0 where
  pub source : LogicalPartitionId
  pub destination : LogicalPartitionId

abbrev pair_key : DirectedPair → Str × Str
pair_key p = (p.source, p.destination)

pub pair_key_injective : (a b : DirectedPair) → pair_key a ≡ pair_key b → a ≡ b
pair_key_injective a b h = ground arith

instance unfoldable pub directed_pair_ord : Ord DirectedPair
unfolding key_ord pair_ord str_ord
directed_pair_ord = key_ord pair_key pair_key_injective (pair_ord str_ord str_ord)

pub record PeerPairMeasurement : Type 0 where
  pub pair : DirectedPair
  pub probe_provenance : Str
  pub directional_bandwidth_bytes_per_sec : ℕ
  pub latency_nanos : ℕ
  pub evidence_reference : Str

pub data PairAdmissionError : Type 0 where
  self_pair missing_bandwidth_or_latency missing_evidence : DirectedPair → PairAdmissionError

abbrev pub PeerPairRegistry : Type 0
PeerPairRegistry = List (DirectedPair × PeerPairMeasurement)

abbrev pub is_empty_str : Str → Bool
is_empty_str [] = true
is_empty_str (c ∷ cs) = false

unfoldable pub admit_pair :
    PeerPairMeasurement → PeerPairRegistry → PeerPairRegistry × Result (Unit {0}) PairAdmissionError
admit_pair m registry =
    if eqb m.pair.source m.pair.destination
    then (registry, err (self_pair m.pair))
    else if m.directional_bandwidth_bytes_per_sec == 0 || m.latency_nanos == 0
    then (registry, err (missing_bandwidth_or_latency m.pair))
    else if is_empty_str m.evidence_reference
    then (registry, err (missing_evidence m.pair))
    else (insert m.pair m registry, ok tt)

abbrev is_some_measurement : Option PeerPairMeasurement → Bool
is_some_measurement none = false
is_some_measurement (some m) = true

unfoldable pub is_admitted : DirectedPair → PeerPairRegistry → Bool
is_admitted pair registry = is_some_measurement (get pair registry)

unfoldable pub measurement : DirectedPair → PeerPairRegistry → Option PeerPairMeasurement
measurement pair registry = get pair registry

unfoldable pub admitted_pairs : PeerPairRegistry → List DirectedPair
admitted_pairs registry = keys registry

unfoldable pub select_copy_path : DirectedPair → PeerPairRegistry → CopyPath
unfolding is_admitted
select_copy_path pair registry = if is_admitted pair registry then peer_copy else host_staged_copy
