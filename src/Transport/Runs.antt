-- ===== src/Transport/Runs.antt =====
-- Sequences of calls of `HostStagedAdapter` (crates/host-coordinator/src/transport.rs).
use hosts.Base.{ℕ, ◌+◌, ◌<◌, List, [], ◌∷◌, Option, Str, ◌==◌, inl, inr, Bool-cases}
use hosts.Base.Word.{u64_mod}
use hosts.BoundPlan.{LogicalPartitionId}
use hosts.Transaction.Mirror.{TransferDirectionMirror}
use hosts.Transport.Spec.{TransferSpec, SourceValue}
use hosts.Transport.Adapter.{
  TransferBudget, HostStagedAdapter, new_adapter, copy, record_fixture_measurement,
  set_simulated_delay, set_simulated_failure,
}
use hosts.Transport.Accounts.{same_accounts, Accounted, new_adapter-Accounted}
use hosts.Transport.Copies.{copy-Accounted}

-- The calls that change an adapter.
pub data AdapterCall : Type 0 where
  copies : ℕ → TransferSpec → SourceValue → LogicalPartitionId → AdapterCall
  measures : TransferDirectionMirror → ℕ → ℕ → AdapterCall
  delays : ℕ → AdapterCall
  fails_next : Option Str → AdapterCall

abbrev pub call_adapter : AdapterCall → HostStagedAdapter → HostStagedAdapter
call_adapter (copies elapsed spec source destination) a = (copy elapsed spec source destination a).0
call_adapter (measures direction n elapsed) a = record_fixture_measurement direction n elapsed a
call_adapter (delays delay) a = set_simulated_delay delay a
call_adapter (fails_next detail) a = set_simulated_failure detail a

abbrev pub run_adapter : List AdapterCall → HostStagedAdapter → HostStagedAdapter
run_adapter [] a = a
run_adapter (c ∷ cs) a = run_adapter cs (call_adapter c a)

-- Each copied range ends below 2^64.
abbrev pub RangesFit : List AdapterCall → Type 0
RangesFit [] = Unit
RangesFit (copies elapsed spec source destination ∷ cs) =
    (spec.range.offset + spec.range.length < u64_mod) × RangesFit cs
RangesFit (measures direction n elapsed ∷ cs) = RangesFit cs
RangesFit (delays delay ∷ cs) = RangesFit cs
RangesFit (fails_next detail ∷ cs) = RangesFit cs

measured-Accounted :
    (direction : TransferDirectionMirror) (n elapsed : ℕ) (a : HostStagedAdapter)
    → Accounted a
    → Accounted (record_fixture_measurement direction n elapsed a)
unfolding record_fixture_measurement
measured-Accounted direction n elapsed a h = elim (Bool-cases (elapsed == 0)) [
  | inl e ↦ rw (record_fixture_measurement, e) h
  | inr e ↦
      rw (record_fixture_measurement, e)
        (same_accounts a _ _ a.simulated_delay a.simulated_failure h)
]

run_from :
    (cs : List AdapterCall) (a : HostStagedAdapter)
    → RangesFit cs
    → Accounted a
    → Accounted (run_adapter cs a)
unfolding set_simulated_delay set_simulated_failure
run_from [] a f h = h
run_from (copies elapsed spec source destination ∷ cs) a f h =
    run_from cs _ f.1 (copy-Accounted elapsed spec source destination a f.0 h)
run_from (measures direction n elapsed ∷ cs) a f h =
    run_from cs _ f (measured-Accounted direction n elapsed a h)
run_from (delays delay ∷ cs) a f h =
    run_from cs (set_simulated_delay delay a) f
      (same_accounts a a.rates a.rate_observations delay a.simulated_failure h)
run_from (fails_next detail ∷ cs) a f h =
    run_from cs (set_simulated_failure detail a) f
      (same_accounts a a.rates a.rate_observations a.simulated_delay detail h)

-- Through any calls on a new adapter, if each copied range ends below 2^64: the used bytes and
-- times are the sums of the records', saturated, and within the declared budget; the records'
-- engines and events count up from one; and no staging buffer stays in use.
pub run_adapter-Accounted :
    (budget : TransferBudget) (cs : List AdapterCall)
    → RangesFit cs
    → Accounted (run_adapter cs (new_adapter budget))
run_adapter-Accounted budget cs f =
    run_from cs (new_adapter budget) f (new_adapter-Accounted budget)
