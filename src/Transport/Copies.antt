-- ===== src/Transport/Copies.antt =====
-- `HostStagedAdapter::copy` on every branch
-- (crates/host-coordinator/src/transport.rs).
use hosts.Base.{
  ℕ, ◌+◌, ◌≤◌, ◌<◌, true, false, Option, none, some, Str, Result, ok, err, raised, panicked, length,
  ltb, ltb→lt, ltb_false→le, ◌≡◌, refl, arith, inl, inr, Bool-cases,
}
use hosts.Base.Word.{u64_mod}
use hosts.Base.Order.{nat_ord}
use hosts.BoundPlan.{LogicalPartitionId}
use hosts.Transaction.Coordinator.{nanos_u64}
use hosts.Transport.Records.{StagingBufferRecord}
use hosts.Transport.Spec.{TransferSpec, SourceValue, TransferRejection, validate_before_copy}
use hosts.Transport.Validation.{
  Matches, validate_before_copy-Matches, validated, range_bytes, slice_in_bounds, slice_wrapped,
}
use hosts.Transport.Adapter.{
  rejected, timed_out, copy_failed, transfer_budget_exceeded, TransferOutcome, HostStagedAdapter,
  allocate, release_buffer, over_budget, move_bytes, run_staged_copy, Copied, settle_copy,
  copy_checked, copy,
}
use hosts.Transport.Accounts.{Accounted, landed-Accounted, with_pool-Accounted, returned}
use hosts.Transport.Landed.{taken, spent, expected_for, Landed}

-- What `copy` leaves and answers.
pub data CopyOutcome (elapsed : ℕ) (spec : TransferSpec) (source : SourceValue)
    (destination : LogicalPartitionId) (a a' : HostStagedAdapter) (r : Copied) : Type 0 where
  not_validated :
      (x : TransferRejection)
      → validate_before_copy spec source destination ≡ err x
      → r ≡ err (raised (rejected x))
      → a' ≡ a
      → CopyOutcome elapsed spec source destination a a' r
  no_budget :
      Matches spec source destination
      → over_budget spec.range.length (expected_for spec a) a ≡ true
      → r
        ≡ err (
            raised (
              transfer_budget_exceeded spec.transfer_ref a.declared_budget.budget_bytes a.used_bytes
                spec.range.length))
      → a' ≡ a
      → CopyOutcome elapsed spec source destination a a' r
  broke :
      (detail : Str)
      → Matches spec source destination
      → over_budget spec.range.length (expected_for spec a) a ≡ false
      → a.simulated_failure ≡ some detail
      → r ≡ err (raised (copy_failed spec.transfer_ref detail))
      → a' ≡ spent spec.range.length a
      → CopyOutcome elapsed spec source destination a a' r
  late :
      Matches spec source destination
      → over_budget spec.range.length (expected_for spec a) a ≡ false
      → a.simulated_failure ≡ none
      → spec.timeout < elapsed
      → r ≡ err (raised (timed_out spec.transfer_ref spec.timeout (nanos_u64 elapsed)))
      → a' ≡ spent spec.range.length a
      → CopyOutcome elapsed spec source destination a a' r
  landed :
      (o : TransferOutcome)
      → Matches spec source destination
      → over_budget spec.range.length (expected_for spec a) a ≡ false
      → a.simulated_failure ≡ none
      → elapsed ≤ spec.timeout
      → r ≡ ok o
      → Landed elapsed spec source destination a a' o
      → CopyOutcome elapsed spec source destination a a' r

module _ (elapsed : ℕ) (spec : TransferSpec) (source : SourceValue)
    (destination : LogicalPartitionId) (a : HostStagedAdapter) where
  moved :
      (failure : Option Str)
      → a.simulated_failure ≡ failure
      → Matches spec source destination
      → over_budget spec.range.length (expected_for spec a) a ≡ false
      → length (range_bytes source spec.range) ≡ spec.range.length
      → let (pool, buffer) = allocate spec.range.length a.staging_pool in
        let r = settle_copy elapsed spec destination (expected_for spec a) (
          move_bytes elapsed spec
            (record a { staging_pool = pool })
            buffer
            failure
            (some (range_bytes source spec.range))) in
        CopyOutcome elapsed spec source destination a r.0 r.1
  unfolding allocate release_buffer nanos_u64
  moved (some detail) f m o n = broke detail m o f refl refl
  moved none f m o n = elim (Bool-cases (ltb spec.timeout elapsed)) [
    | inl e ↦ rw e (late m o f (ltb→lt spec.timeout elapsed e) refl refl)
    | inr e ↦ rw e (
        landed _ m o f (ltb_false→le spec.timeout elapsed e) refl (record {
          content = refl;
          whole = n;
          labelled = refl;
          recorded = refl;
          bytes_added = refl;
          nanos_added = refl;
          engine_moved = refl;
          event_moved = refl;
          pool_back = refl;
          same_budget = refl;
          same_rates = refl;
          same_observations = refl;
          same_delay = refl;
          same_failure = refl;
        }))
  ]

  checked :
      (v : Result (Unit {0}) TransferRejection)
      → validate_before_copy spec source destination ≡ v
      → spec.range.offset + spec.range.length < u64_mod
      → let r = copy_checked elapsed spec source destination a v in
        CopyOutcome elapsed spec source destination a r.0 r.1
  unfolding run_staged_copy
  checked (err x) v f = not_validated x v refl refl
  checked (ok u) v f =
      let m = validated spec source destination v in
      let (s, n) = slice_in_bounds source spec.range f m.bounds in
      elim (Bool-cases (over_budget spec.range.length (expected_for spec a) a)) [
        | inl e ↦ rw e (no_budget m e refl refl)
        | inr e ↦ rw (e, run_staged_copy, s) (moved a.simulated_failure refl m e n)
      ]

  -- A copy whose range ends below 2^64 has one of five outcomes. It is rejected by validation, or
  -- over the budget, and the adapter stays as it was. Else its facts match; it fails as simulated,
  -- or takes longer than the declared timeout, and only the staging counters move. Or it
  -- lands: the bytes are those of the declared range, the record of the copy is answered and stands
  -- behind the earlier ones, its bytes and its expected time are added, saturating, to those used,
  -- its engine and its event are the next ones, the buffer is given back, and nothing else changes.
  pub copy-CopyOutcome :
      spec.range.offset + spec.range.length < u64_mod
      → let r = copy elapsed spec source destination a in
        CopyOutcome elapsed spec source destination a r.0 r.1
  unfolding copy
  copy-CopyOutcome f = checked (validate_before_copy spec source destination) refl f

-- Where a copy lands, the adapter is the one that `settle_copy` makes of the spent one.
settled :
    (elapsed : ℕ) (spec : TransferSpec) (source : SourceValue) (destination : LogicalPartitionId)
    (a a' : HostStagedAdapter) (o : TransferOutcome)
    → Landed elapsed spec source destination a a' o
    → a'
      ≡ (settle_copy elapsed spec destination (expected_for spec a) (
        spent spec.range.length a,
        ok (taken spec.range.length a, range_bytes source spec.range),
      )).0
unfolding nanos_u64
settled elapsed spec source destination a a' o h = ground (
  arith, h.recorded, h.bytes_added, h.nanos_added, h.engine_moved, h.event_moved, h.pool_back,
  h.same_budget, h.same_rates, h.same_observations, h.same_delay, h.same_failure,
)

pub copy-Accounted :
    (elapsed : ℕ) (spec : TransferSpec) (source : SourceValue) (destination : LogicalPartitionId)
    (a : HostStagedAdapter)
    → spec.range.offset + spec.range.length < u64_mod
    → Accounted a
    → Accounted (copy elapsed spec source destination a).0
unfolding allocate release_buffer
copy-Accounted elapsed spec source destination a f h =
    kept (copy-CopyOutcome elapsed spec source destination a f)
  where
    pool_back : Accounted (spent spec.range.length a)
    pool_back = with_pool-Accounted a _ h (returned spec.range.length a.staging_pool h.idle)

    kept :
        {r : Copied} {a' : HostStagedAdapter}
        → CopyOutcome elapsed spec source destination a a' r
        → Accounted a'
    kept (not_validated x v e q) = rw q h
    kept (no_budget m o e q) = rw q h
    kept (broke detail m o x e q) = rw q pool_back
    kept (late m o x t e q) = rw q pool_back
    kept (landed o m b x t e l) = rw (settled elapsed spec source destination a _ o l) (
        landed-Accounted elapsed spec destination (expected_for spec a) (spent spec.range.length a)
          (taken spec.range.length a) (range_bytes source spec.range) b pool_back)

lost :
    (elapsed : ℕ) (spec : TransferSpec) (destination : LogicalPartitionId) (expected : ℕ)
    (a : HostStagedAdapter) (buffer : StagingBufferRecord) (failure : Option Str)
    → failure ≡ none
    → (settle_copy elapsed spec destination expected
        (move_bytes elapsed spec a buffer failure none)).1
      ≡ err panicked
lost elapsed spec destination expected a buffer none f = refl
lost elapsed spec destination expected a buffer (some detail) f = absurd (ground arith)

-- A transfer with a range of two u64 words whose end passes 2^64 passes validation if its wrapped
-- end lies in the content and the other facts match; the copy panics if also the budget admits it
-- and no failure is simulated.
pub wrapped_range_panics :
    (elapsed : ℕ) (spec : TransferSpec) (source : SourceValue) (destination : LogicalPartitionId)
    (a : HostStagedAdapter)
    → Matches spec source destination
    → spec.range.offset < u64_mod
    → spec.range.length < u64_mod
    → u64_mod ≤ spec.range.offset + spec.range.length
    → over_budget spec.range.length (expected_for spec a) a ≡ false
    → a.simulated_failure ≡ none
    → (validate_before_copy spec source destination ≡ ok tt)
      × ((copy elapsed spec source destination a).1 ≡ err panicked)
unfolding copy run_staged_copy
wrapped_range_panics elapsed spec source destination a m o n w b f =
    let v = (validate_before_copy-Matches spec source destination).1 m in
    let s = slice_wrapped source spec.range o n w in
    (
      v,
      rw (copy, v, b, run_staged_copy, s)
          (lost elapsed spec destination (expected_for spec a) _ _ a.simulated_failure f),
    )
