-- ===== src/Scenarios/Transfers.antt =====
-- The theorems of transport at concrete transfers and measurements.
use hosts.Base.{
  ◌-◌, ◌^◌, false, List, [], ◌∷◌, none, some, bytes, ok, err, panicked, ◌≡◌, ◌↔◌, ◌⊎◌, refl, arith,
}
use hosts.Base.Order.{str_ord}
use hosts.Transaction.Mirror.{h2d, f32, dense}
use hosts.Transport.Records.{peer_copy, host_staged_copy}
use hosts.Transport.Spec.{
  ByteRange, TransferSpec, SourceValue, source_bytes, end, validate_before_copy,
}
use hosts.Transport.Peers.{DirectedPair, PeerPairMeasurement, measurement, select_copy_path}
use hosts.Transport.Adapter.{
  new_adapter, copy, TransferBudget, over_budget, expected_copy_time_nanos,
}
use hosts.Transport.Validation.{Matches, validate_before_copy-Matches}
use hosts.Transport.Accounts.{Accounted}
use hosts.Transport.Copies.{CopyOutcome, copy-CopyOutcome, wrapped_range_panics}
use hosts.Transport.Landed.{expected_for}
use hosts.Transport.Runs.{
  copies, measures, fails_next, AdapterCall, run_adapter, run_adapter-Accounted,
}
use hosts.Transport.Registry.{admit_all, Backed, select_copy_path-Backed}
use hosts.Scenarios.World.{alpha, beta}

abbrev source : SourceValue
source = record {
  owner = alpha;
  dtype = f32;
  layout = dense;
  generation = 1;
  content = 1 ∷ 2 ∷ 3 ∷ 4 ∷ 5 ∷ 6 ∷ 7 ∷ 8 ∷ [];
}

abbrev spec_of : ByteRange → TransferSpec
spec_of r = record {
  transfer_ref = bytes "t";
  source_owner = alpha;
  destination = beta;
  range = r;
  direction = h2d;
  dtype = f32;
  layout = dense;
  generation = 1;
  path_label = hosts.Transaction.Mirror.TransportPathMirror.host_staged;
  timeout = 1000;
}

abbrev inner : TransferSpec
inner = spec_of (record { offset = 2; length = 4 })

-- A range whose end passes 2^64 and wraps to 3.
abbrev wrapped : TransferSpec
wrapped = spec_of (record { offset = 2 ^ 64 - 1; length = 4 })

abbrev budget : TransferBudget
budget = record { budget_bytes = 2 ^ 63; time_nanos = 2 ^ 63 }

validate_before_copy-Matches_example :
    (validate_before_copy inner source beta ≡ ok tt) ↔ Matches inner source beta
validate_before_copy-Matches_example = validate_before_copy-Matches inner source beta

copy-CopyOutcome_example :
    CopyOutcome 10 inner source beta
      (new_adapter budget)
      (copy 10 inner source beta (new_adapter budget)).0
      (copy 10 inner source beta (new_adapter budget)).1
copy-CopyOutcome_example = copy-CopyOutcome 10 inner source beta (new_adapter budget) (omega arith)

abbrev adapter_calls : List AdapterCall
adapter_calls =
    copies 10 inner source beta
    ∷ measures h2d 4096 50
    ∷ fails_next (some (bytes "broken"))
    ∷ copies 10 inner source beta
    ∷ []

run_adapter-Accounted_example : Accounted (run_adapter adapter_calls (new_adapter budget))
run_adapter-Accounted_example =
    run_adapter-Accounted budget adapter_calls (omega arith, (omega arith, tt))

wrapped-Matches : Matches wrapped source beta
unfolding end source_bytes
wrapped-Matches = record {
  dtype = refl;
  layout = refl;
  bounds = omega arith;
  generation = refl;
  owner = refl;
  target = refl;
}

wrapped_within :
    over_budget 4 (expected_for wrapped (new_adapter budget)) (new_adapter budget) ≡ false
unfolding expected_copy_time_nanos
wrapped_within = refl

wrapped_range_panics_example :
    (validate_before_copy wrapped source beta ≡ ok tt)
    × ((copy 10 wrapped source beta (new_adapter budget)).1 ≡ err panicked)
wrapped_range_panics_example =
    wrapped_range_panics 10 wrapped source beta (new_adapter budget) wrapped-Matches (omega arith)
      (omega arith) (omega arith) wrapped_within refl

abbrev pair : DirectedPair
pair = record { source = alpha; destination = beta }

abbrev measured : PeerPairMeasurement
measured = record {
  pair = pair;
  probe_provenance = bytes "probe";
  directional_bandwidth_bytes_per_sec = 1000;
  latency_nanos = 10;
  evidence_reference = bytes "log";
}

select_copy_path-Backed_example :
    (Backed (measured ∷ []) pair
      × (select_copy_path pair (admit_all (measured ∷ []) []) ≡ peer_copy))
    ⊎ ((measurement pair (admit_all (measured ∷ []) []) ≡ none)
        × (select_copy_path pair (admit_all (measured ∷ []) []) ≡ host_staged_copy))
select_copy_path-Backed_example = select_copy_path-Backed (measured ∷ []) pair
