-- ===== src/Scenarios/Records.antt =====
-- The theorems of canonical bytes and of partitions at concrete records.
use hosts.Base.{true, false, none, some, ◌≡◌, refl, arith, bytes, ◌∷◌, []}
use hosts.Transaction.Mirror.{broadcast}
use hosts.Transaction.OperationBytes.{OperationFits, operation_bytes_injective}
use hosts.Partition.{
  AdmissionRequest, PartitionFailure, allocation_failure, device_loss, admit, failure, is_active,
  teardown,
}
use hosts.Partition.Admission.{
  admission, admit-admission, after, first_failure_wins, fails, failures,
}
use hosts.Partition.Receipt.{PartitionReceipt, synthetic, host_staged, not_claimed}
use hosts.Partition.ReceiptBytes.{ReceiptFits, receipt_bytes_injective}
use hosts.Scenarios.World.{device, ledger, admitted, share}

share_fits : OperationFits (broadcast share)
share_fits =
    (ground arith, ground arith, (ground arith, (ground arith, (ground arith, tt))), ground arith)

operation_bytes_injective_example : broadcast share ≡ broadcast share
operation_bytes_injective_example =
    operation_bytes_injective (broadcast share) (broadcast share) share_fits share_fits refl

abbrev receipt : PartitionReceipt
receipt = record {
  physical_device_count = 1;
  physical_device_ids = device ∷ [];
  virtual_partition_count = 2;
  virtual_partition_ids = 1 ∷ 2 ∷ [];
  fixture_identity_class = synthetic;
  transport_class = host_staged;
  hardware_isolation_claimed = not_claimed;
}

receipt_fits : ReceiptFits receipt
receipt_fits = record {
  physical_count_fits = ground arith;
  virtual_count_fits = ground arith;
  devices_fit = (ground arith, (ground arith, tt));
  partitions_fit = (ground arith, (ground arith, (ground arith, tt)));
}

receipt_bytes_injective_example : receipt ≡ receipt
receipt_bytes_injective_example =
    receipt_bytes_injective receipt receipt receipt_fits receipt_fits refl

abbrev request : AdmissionRequest
request = record { partition_id = 3; bound_device = device; declared = ledger }

admit-admission_example : admit request 200000 ≡ admission request 200000
admit-admission_example = admit-admission request 200000 (ground arith)

abbrev loss : PartitionFailure
loss = device_loss (bytes "gone")

admitted_active : is_active (admitted 1) ≡ true
unfolding is_active
admitted_active = refl

first_failure_wins_example :
    (failure (after (admitted 1) (fails loss ∷ failures (allocation_failure (bytes "late") ∷ [])))
      ≡ some loss)
    × (failure (after (teardown (admitted 1)) (fails loss ∷ [])) ≡ none)
    × (is_active (after (teardown (admitted 1)) (fails loss ∷ [])) ≡ false)
first_failure_wins_example =
    first_failure_wins (admitted 1) loss (allocation_failure (bytes "late") ∷ []) (fails loss ∷ [])
      admitted_active
