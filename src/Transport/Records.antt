-- ===== src/Transport/Records.antt =====
-- The selected-transport section of a receipt (crates/host-coordinator/src/transport.rs). A `Duration`
-- is its nanoseconds; an id newtype over u64 is its number.
use hosts.Base.{ℕ, Bool, List}
use hosts.BoundPlan.{LogicalPartitionId}
use hosts.Transaction.Mirror.{TransferRef, TransferDirectionMirror, h2d, d2h, bidi}

pub record MeasuredRates : Type 0 where
  pub h2d_bytes_per_sec : ℕ
  pub d2h_bytes_per_sec : ℕ
  pub bidi_bytes_per_sec : ℕ

abbrev pub t1 : MeasuredRates
t1 = record {
  h2d_bytes_per_sec = 9_800_000_000;
  d2h_bytes_per_sec = 11_000_000_000;
  bidi_bytes_per_sec = 12_100_000_000;
}

unfoldable pub rate_for : MeasuredRates → TransferDirectionMirror → ℕ
rate_for r h2d = r.h2d_bytes_per_sec
rate_for r d2h = r.d2h_bytes_per_sec
rate_for r bidi = r.bidi_bytes_per_sec

unfoldable pub with_rate : MeasuredRates → TransferDirectionMirror → ℕ → MeasuredRates
with_rate r h2d rate = record r { h2d_bytes_per_sec = rate }
with_rate r d2h rate = record r { d2h_bytes_per_sec = rate }
with_rate r bidi rate = record r { bidi_bytes_per_sec = rate }

pub data CopyPath : Type 0 where
  host_staged_copy peer_copy : CopyPath

pub record StagingBufferRecord : Type 0 where
  pub id : ℕ
  pub capacity_bytes : ℕ
  pub pinned : Bool

pub record SelectedTransferRecord : Type 0 where
  pub transfer_ref : TransferRef
  pub copy_path : CopyPath
  pub staging : StagingBufferRecord
  pub engine : ℕ
  pub event : ℕ
  pub timeout : ℕ
  pub bytes : ℕ
  pub elapsed_nanos : ℕ
  pub expected_nanos : ℕ
  pub direction : TransferDirectionMirror
  pub destination : LogicalPartitionId

pub record RateObservation : Type 0 where
  pub direction : TransferDirectionMirror
  pub bytes : ℕ
  pub elapsed_nanos : ℕ
  pub measured_bytes_per_sec : ℕ

pub record TransportReceipt : Type 0 where
  pub records : List SelectedTransferRecord
  pub budget_bytes : ℕ
  pub budget_time_nanos : ℕ
  pub used_bytes : ℕ
  pub used_time_nanos : ℕ
  pub rates : MeasuredRates
  pub rate_observations : List RateObservation
