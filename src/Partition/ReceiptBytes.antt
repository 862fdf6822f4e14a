-- ===== src/Partition/ReceiptBytes.antt =====
-- The canonical bytes of a receipt (crates/host-coordinator/src/partition.rs) tell receipts apart.
use hosts.Base.{ℕ, ◌≡◌, List, length, arith, All}
use hosts.Identity.Device.{PhysicalDeviceId}
use hosts.Identity.DeviceBytes.{DeviceFits, device}
use hosts.Identity.Injective.{IsU64, Code, word, flag, list, ◌then_code◌, by_key, enc_injective}
use hosts.Partition.Receipt.{
  FixtureIdentityClass, TransportClass, PartitionReceipt, HardwareIsolationClaim, fixture_tag,
  transport_tag, claimed, receipt_bytes,
}

fixture_tag_injective : (a b : FixtureIdentityClass) → fixture_tag a ≡ fixture_tag b → a ≡ b
unfolding fixture_tag
fixture_tag_injective a b h = ground arith

transport_tag_injective : (a b : TransportClass) → transport_tag a ≡ transport_tag b → a ≡ b
unfolding transport_tag
transport_tag_injective a b h = ground arith

-- Every word and every length of the receipt fits 64 bits.
pub record ReceiptFits (r : PartitionReceipt) : Type 0 where
  pub physical_count_fits : IsU64 r.physical_device_count
  pub virtual_count_fits : IsU64 r.virtual_partition_count
  pub devices_fit : IsU64 (length r.physical_device_ids) × All DeviceFits r.physical_device_ids
  pub partitions_fit : IsU64 (length r.virtual_partition_ids) × All IsU64 r.virtual_partition_ids

abbrev Key : Type 0
Key =
    ℕ
    × (List PhysicalDeviceId
        × (ℕ × (List ℕ × (FixtureIdentityClass × (TransportClass × HardwareIsolationClaim)))))

abbrev key : PartitionReceipt → Key
key r = (
  r.physical_device_count,
  (
    r.physical_device_ids,
    (
      r.virtual_partition_count,
      (
        r.virtual_partition_ids,
        (r.fixture_identity_class, (r.transport_class, r.hardware_isolation_claimed)),
      ),
    ),
  ),
)

claim_unique : (a b : HardwareIsolationClaim) → a ≡ b
claim_unique a b = ground arith

fixture_tag_fits : (c : FixtureIdentityClass) → IsU64 (fixture_tag c)
unfolding fixture_tag
fixture_tag_fits c = ground arith

transport_tag_fits : (c : TransportClass) → IsU64 (transport_tag c)
unfolding transport_tag
transport_tag_fits c = ground arith

receipt_code : Code Key
receipt_code =
    word
    then_code list device
    then_code word
    then_code list word
    then_code by_key fixture_tag fixture_tag_injective word
    then_code by_key transport_tag transport_tag_injective word
    then_code by_key claimed (λ a b h. claim_unique a b) flag

fits : (r : PartitionReceipt) → ReceiptFits r → receipt_code.Fits (key r)
unfolding receipt_code
fits r p = (
  p.physical_count_fits,
  (
    p.devices_fit,
    (
      p.virtual_count_fits,
      (
        p.partitions_fit,
        (fixture_tag_fits r.fixture_identity_class, (transport_tag_fits r.transport_class, tt)),
      ),
    ),
  ),
)

-- Receipts with the same canonical bytes are the same receipt, where every word and every length
-- fits 64 bits.
pub receipt_bytes_injective :
    (a b : PartitionReceipt)
    → ReceiptFits a
    → ReceiptFits b
    → receipt_bytes a ≡ receipt_bytes b
    → a ≡ b
unfolding receipt_bytes receipt_code
receipt_bytes_injective a b p q h =
    ground (arith, enc_injective receipt_code (key a) (key b) (fits a p) (fits b q) h)
