-- ===== src/Transport/Accounts.antt =====
-- The accounts of `HostStagedAdapter` (crates/host-coordinator/src/transport.rs): used bytes and
-- times, records, ids and staging buffers, through any sequence of its calls.
use hosts.Base.{
  ℕ, suc, ◌+◌, ◌≤◌, false, List, [], ◌∷◌, ◌++◌, Option, Str, ok, length, sum_by, sum_by-append,
  length-append, ltb, if◌then◌else◌, ◌≡◌, refl, ap, ◌∙◌, arith,
}
use hosts.Base.Word.{u64_mod, u64_max, wrap, saturating_add}
use hosts.Base.Order.{nat_ord}
use hosts.Base.Collections.{remove, insert}
use hosts.BoundPlan.{LogicalPartitionId}
use hosts.Transport.Records.{
  MeasuredRates, RateObservation, SelectedTransferRecord, StagingBufferRecord,
}
use hosts.Transport.Spec.{TransferSpec}
use hosts.Transport.Adapter.{
  TransferBudget, HostStagedAdapter, new_adapter, StagingPool, allocate, release_buffer,
  over_budget, selected_record, settle_copy,
}

-- The number that saturating additions make of a sum.
abbrev pub saturate : ℕ → ℕ
saturate n = if ltb n u64_mod then n else u64_max

saturating_add-saturate : (s n : ℕ) → saturating_add (saturate s) n ≡ saturate (s + n)
saturating_add-saturate s n = ground arith

abbrev pub record_bytes : SelectedTransferRecord → ℕ
record_bytes r = r.bytes

abbrev pub record_nanos : SelectedTransferRecord → ℕ
record_nanos r = r.expected_nanos

-- The records' ids count up from the given one.
abbrev pub Numbered : ℕ → List SelectedTransferRecord → Type 0
Numbered n [] = Unit
Numbered n (r ∷ rs) = (r.engine ≡ wrap (suc n)) × (r.event ≡ wrap (suc n)) × Numbered (suc n) rs

-- What the adapter used is what its records say, within the declared budget; the records' ids count
-- up from one; no staging buffer is in use.
pub record Accounted (a : HostStagedAdapter) : Type 0 where
  pub bytes_used : a.used_bytes ≡ saturate (sum_by record_bytes a.records)
  pub nanos_used : a.used_time_nanos ≡ saturate (sum_by record_nanos a.records)
  pub bytes_fit : a.used_bytes ≤ a.declared_budget.budget_bytes
  pub nanos_fit : a.used_time_nanos ≤ a.declared_budget.time_nanos
  pub engines : a.next_engine ≡ wrap (length a.records)
  pub events : a.next_event ≡ wrap (length a.records)
  pub numbered : Numbered 0 a.records
  pub idle : a.staging_pool.active ≡ []

pub new_adapter-Accounted : (budget : TransferBudget) → Accounted (new_adapter budget)
new_adapter-Accounted budget = record {
  bytes_used = refl;
  nanos_used = refl;
  bytes_fit = omega arith;
  nanos_fit = omega arith;
  engines = refl;
  events = refl;
  numbered = tt;
  idle = refl;
}

Numbered-append :
    (n : ℕ) (rs : List SelectedTransferRecord) (r : SelectedTransferRecord)
    → Numbered n rs
    → r.engine ≡ wrap (suc (n + length rs))
    → r.event ≡ wrap (suc (n + length rs))
    → Numbered n (rs ++ (r ∷ []))
Numbered-append n [] r h e v =
    (e ∙ ap (λ x. wrap (suc x)) (omega arith), v ∙ ap (λ x. wrap (suc x)) (omega arith), tt)
Numbered-append n (q ∷ rs) r (h, k, t) e v = (
  h,
  k,
  Numbered-append (suc n) rs r t (e ∙ ap (λ x. wrap (suc x)) (omega arith))
      (v ∙ ap (λ x. wrap (suc x)) (omega arith)),
)

-- A buffer is taken and given back.
pub returned :
    (n : ℕ) (pool : StagingPool)
    → pool.active ≡ []
    → (release_buffer (allocate n pool).1.id (allocate n pool).0).active ≡ []
unfolding allocate release_buffer insert remove
returned n pool e = rw e (ground arith)

-- With a buffer given back the accounts stand.
pub with_pool-Accounted :
    (a : HostStagedAdapter) (pool : StagingPool)
    → Accounted a
    → pool.active ≡ []
    → Accounted (record a { staging_pool = pool })
with_pool-Accounted a pool h e = record {
  bytes_used = h.bytes_used;
  nanos_used = h.nanos_used;
  bytes_fit = h.bytes_fit;
  nanos_fit = h.nanos_fit;
  engines = h.engines;
  events = h.events;
  numbered = h.numbered;
  idle = e;
}

-- Neither rates nor a simulation is accounted.
pub same_accounts :
    (a : HostStagedAdapter) (rates : MeasuredRates) (observations : List RateObservation)
    (delay : ℕ) (failure : Option Str)
    → Accounted a
    → Accounted (record a {
      rates = rates;
      rate_observations = observations;
      simulated_delay = delay;
      simulated_failure = failure;
    })
same_accounts a rates observations delay failure h = record {
  bytes_used = h.bytes_used;
  nanos_used = h.nanos_used;
  bytes_fit = h.bytes_fit;
  nanos_fit = h.nanos_fit;
  engines = h.engines;
  events = h.events;
  numbered = h.numbered;
  idle = h.idle;
}

-- A landed copy within the budget keeps the accounts.
pub landed-Accounted :
    (elapsed : ℕ) (spec : TransferSpec) (destination : LogicalPartitionId) (expected : ℕ)
    (a : HostStagedAdapter) (buffer : StagingBufferRecord) (landed : List ℕ)
    → over_budget spec.range.length expected a ≡ false
    → Accounted a
    → Accounted (settle_copy elapsed spec destination expected (a, ok (buffer, landed))).0
landed-Accounted elapsed spec destination expected a buffer landed o h =
    let r = selected_record elapsed spec destination expected a buffer in
    let bytes_total : sum_by record_bytes a.records + spec.range.length
        ≡ sum_by record_bytes (a.records ++ (r ∷ [])) =
      omega (arith, sum_by-append record_bytes a.records (r ∷ [])) in
    let nanos_total : sum_by record_nanos a.records + expected
        ≡ sum_by record_nanos (a.records ++ (r ∷ [])) =
      omega (arith, sum_by-append record_nanos a.records (r ∷ [])) in
    record {
      bytes_used =
          ap (λ x. saturating_add x spec.range.length) h.bytes_used
          ∙ (saturating_add-saturate (sum_by record_bytes a.records) spec.range.length
              ∙ ap saturate bytes_total);
      nanos_used =
          ap (λ x. saturating_add x expected) h.nanos_used
          ∙ (saturating_add-saturate (sum_by record_nanos a.records) expected
              ∙ ap saturate nanos_total);
      bytes_fit = ground arith;
      nanos_fit = ground arith;
      engines = omega (arith, h.engines, length-append a.records (r ∷ []));
      events = omega (arith, h.events, length-append a.records (r ∷ []));
      numbered =
          Numbered-append 0 a.records r h.numbered (omega (arith, h.engines))
            (omega (arith, h.events));
      idle = h.idle;
    }
