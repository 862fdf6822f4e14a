-- ===== src/Partition/Receipt.antt =====
-- The receipt taxonomy of crates/host-coordinator/src/partition.rs. A `BTreeSet` is its ascending list.
use hosts.Base.{ℕ, List, ◌++◌, length, Bool, false}
use hosts.Identity.Bytes.{push_u64, push_bool, push_list}
use hosts.Identity.Device.{PhysicalDeviceId, device_bytes}

pub data HardwareIsolationClaim : Type 0 where
  not_claimed : HardwareIsolationClaim

pub data FixtureIdentityClass : Type 0 where
  physical virtual synthetic : FixtureIdentityClass

unfoldable pub fixture_tag : FixtureIdentityClass → ℕ
fixture_tag physical = 0
fixture_tag virtual = 1
fixture_tag synthetic = 2

pub data TransportClass : Type 0 where
  no_transport host_staged directed_peer_not_attempted : TransportClass

unfoldable pub transport_tag : TransportClass → ℕ
transport_tag no_transport = 0
transport_tag host_staged = 1
transport_tag directed_peer_not_attempted = 2

pub record PartitionReceipt : Type 0 where
  pub physical_device_count : ℕ
  pub physical_device_ids : List PhysicalDeviceId
  pub virtual_partition_count : ℕ
  pub virtual_partition_ids : List ℕ
  pub fixture_identity_class : FixtureIdentityClass
  pub transport_class : TransportClass
  pub hardware_isolation_claimed : HardwareIsolationClaim

unfoldable pub new_receipt :
    List PhysicalDeviceId → List ℕ → FixtureIdentityClass → TransportClass → PartitionReceipt
new_receipt devices partitions fixture transport = record {
  physical_device_count = length devices;
  physical_device_ids = devices;
  virtual_partition_count = length partitions;
  virtual_partition_ids = partitions;
  fixture_identity_class = fixture;
  transport_class = transport;
  hardware_isolation_claimed = not_claimed;
}

unfoldable pub claimed : HardwareIsolationClaim → Bool
claimed not_claimed = false

unfoldable pub receipt_bytes : PartitionReceipt → List ℕ
unfolding push_u64 push_bool push_list fixture_tag transport_tag claimed
receipt_bytes r =
    push_u64 r.physical_device_count
    ++ (push_list device_bytes r.physical_device_ids
        ++ (push_u64 r.virtual_partition_count
            ++ (push_list push_u64 r.virtual_partition_ids
                ++ (push_u64 (fixture_tag r.fixture_identity_class)
                    ++ (push_u64 (transport_tag r.transport_class)
                        ++ push_bool (claimed r.hardware_isolation_claimed))))))
