-- ===== src/Scenarios/Devices.antt =====
-- The theorems of discovery, of device sets and of links at concrete devices.
use hosts.Base.{
  ℕ, ◌*◌, ◌/◌, ◌%◌, ◌≤◌, true, false, List, [], ◌∷◌, ◌++◌, none, some, bytes, ok, length, drop, ◌≡◌,
  ◌≢◌, ◌↔◌, ◌⊎◌, refl, arith, All,
}
use hosts.Identity.Device.{PhysicalDeviceId, device_ord, metal, metal_facts}
use hosts.Base.Order.{str_ord}
use hosts.Base.Collections.{contains, get, insert}
use hosts.Discovery.Sha256.{initial_state, new_sha256, whole_blocks, finalize, digest, pad_zeros}
use hosts.Discovery.Streaming.{
  update_all, concat, update_all-digest, reference_digest, compress_all, zeros, whole_blocks_stops,
  pad_zeros_stops,
}
use hosts.Discovery.Snapshot.{
  DeviceDiscoveryEntry, DeviceDiscoverySnapshot, DeviceCapabilities, Devices, healthy,
  not_attempted, snapshot_of, new_snapshot, collect_entries,
}
use hosts.Discovery.Facts.{SnapshotFits, snapshot_bytes_injective}
use hosts.Discovery.Enumerated.{Catalogue, from_enumerated-Catalogue}
use hosts.DeviceSet.{
  DeviceSetConstraints, constraints, explicit, resolve, from_members, DeviceLink, device_pair_ord,
  admitted_link, peer, DeviceTopologySnapshot, new_topology, traversal_allowed,
}
use hosts.DeviceSet.Selection.{IsCurrentMember, resolve-IsCurrentMember}
use hosts.DeviceSet.Constraints.{Selects, AtMost, resolve-Selects}
use hosts.DeviceSet.Links.{AdmittedRow, traversal_allowed-AdmittedRow, Given, new_topology-Given}
use hosts.Scenarios.World.{device}

digest_abc :
    digest (bytes "abc")
    ≡ 0xba ∷ 0x78 ∷ 0x16 ∷ 0xbf ∷ 0x8f ∷ 0x01 ∷ 0xcf ∷ 0xea ∷ 0x41 ∷ 0x41 ∷ 0x40 ∷ 0xde ∷ 0x5d
      ∷ 0xae ∷ 0x22 ∷ 0x23 ∷ 0xb0 ∷ 0x03 ∷ 0x61 ∷ 0xa3 ∷ 0x96 ∷ 0x17 ∷ 0x7a ∷ 0x9c ∷ 0xb4 ∷ 0x10
      ∷ 0xff ∷ 0x61 ∷ 0xf2 ∷ 0x00 ∷ 0x15 ∷ 0xad ∷ []
unfolding digest
digest_abc = refl

abbrev chunks : List (List ℕ)
chunks = bytes "ab" ∷ bytes "" ∷ bytes "c" ∷ []

update_all-digest_example :
    (finalize (update_all chunks new_sha256) ≡ digest (concat chunks))
    × (digest (concat chunks) ≡ reference_digest (concat chunks))
update_all-digest_example = update_all-digest chunks

whole_blocks_stops_example :
    whole_blocks 3 initial_state (bytes "abc")
    ≡ (compress_all (3 / 64) initial_state (bytes "abc"), drop (64 * (3 / 64)) (bytes "abc"))
whole_blocks_stops_example = whole_blocks_stops 3 initial_state (bytes "abc") (omega arith)

pad_zeros_stops_example :
    (pad_zeros 64 (bytes "abc") ≡ bytes "abc" ++ zeros 53)
    × (length (pad_zeros 64 (bytes "abc")) % 64 ≡ 56)
pad_zeros_stops_example = pad_zeros_stops 64 (bytes "abc") (omega arith)

abbrev pub second : PhysicalDeviceId
second = record { facts = metal_facts (record { registry_id = bytes "m1" }) }

abbrev capabilities : DeviceCapabilities
capabilities = record {
  compute_capability = record { major = 0; minor = 0 };
  sm_count = 0;
  dtype_surface = record {
    f32 = true;
    f64 = false;
    f16 = true;
    bf16 = false;
    i8 = true;
    i32 = true;
  };
  max_threads_per_workgroup = 1024;
  workgroup_shared_memory_min_bytes = 16384;
  workgroup_shared_memory_max_bytes = 32768;
  collective_width = 32;
  unified_memory = true;
}

abbrev entry_of : ℕ → PhysicalDeviceId → DeviceDiscoveryEntry
entry_of k id = record {
  ordinal = k;
  identity = id;
  device_model = some (bytes "model");
  capabilities = capabilities;
  memory = record { tool_report_total_mib = none; api_total_bytes = 1000 };
  health = healthy;
  health_generation = 1;
  probe_provenance = record { probe = bytes "probe"; tool_versions = bytes "1" };
}

abbrev pub rows : Devices
rows = (0, entry_of 0 device) ∷ (1, entry_of 1 second) ∷ []

abbrev pub snapshot : DeviceDiscoverySnapshot
snapshot = snapshot_of 5 rows not_attempted

snapshot_new : new_snapshot 5 rows not_attempted ≡ some snapshot
unfolding new_snapshot
snapshot_new = refl

snapshot_fits : SnapshotFits snapshot
unfolding snapshot_of
snapshot_fits = record {
  time_fits = omega arith;
  count_fits = omega arith;
  entries_fit = ground arith;
}

snapshot_bytes_injective_example : snapshot ≡ snapshot
snapshot_bytes_injective_example =
    snapshot_bytes_injective 5 5 rows rows not_attempted not_attempted snapshot snapshot
      snapshot_new snapshot_new snapshot_fits snapshot_fits refl

from_enumerated-Catalogue_example :
    Catalogue 5 (entry_of 1 second ∷ entry_of 0 device ∷ []) (
      snapshot_of 5 (collect_entries (entry_of 1 second ∷ entry_of 0 device ∷ []) []) not_attempted)
from_enumerated-Catalogue_example =
    from_enumerated-Catalogue 5 (entry_of 1 second ∷ entry_of 0 device ∷ [])

abbrev wanted : DeviceSetConstraints
wanted = record { backend = some metal; exclude = second ∷ []; min_count = 1; max_count = some 1 }

wanted_resolves : resolve (constraints wanted) snapshot 1 ≡ ok (device ∷ [])
unfolding resolve snapshot_of device_ord str_ord
wanted_resolves = refl

resolve-Selects_example :
    ((id : PhysicalDeviceId)
      → (contains id (device ∷ []) ≡ true) ↔ Selects wanted 1 snapshot.devices id)
    × ((wanted.min_count ≤ length (device ∷ [])) × AtMost wanted.max_count (length (device ∷ [])))
resolve-Selects_example = resolve-Selects wanted snapshot 1 (device ∷ []) wanted_resolves

resolve-IsCurrentMember_example :
    (resolve (explicit (second ∷ device ∷ [])) snapshot 1
      ≡ ok (from_members (second ∷ device ∷ [])))
    ↔ All (IsCurrentMember snapshot 1) (from_members (second ∷ device ∷ []))
resolve-IsCurrentMember_example = resolve-IsCurrentMember snapshot 1 (second ∷ device ∷ [])

abbrev row : DeviceLink
row = record {
  from = device;
  to = second;
  state = admitted_link peer (record { bandwidth_bytes_per_sec = 1000; latency_nanos = 10 });
}

abbrev pub topology : DeviceTopologySnapshot
topology = record { discovery = snapshot; links = ((device, second), row) ∷ [] }

topology_new : new_topology snapshot (row ∷ []) ≡ some topology
unfolding new_topology snapshot_of device_ord str_ord insert
topology_new = refl

row_allowed : traversal_allowed device second topology ≡ ok tt
unfolding traversal_allowed snapshot_of device_ord str_ord get device_pair_ord
row_allowed = refl

devices_differ : device ≢ second
devices_differ h = ground arith

traversal_allowed-AdmittedRow_example :
    (traversal_allowed device second topology ≡ ok tt)
    ↔ ((device ≡ second) ⊎ AdmittedRow device second topology)
traversal_allowed-AdmittedRow_example = traversal_allowed-AdmittedRow device second topology

new_topology-Given_example :
    (r : AdmittedRow device second topology) × Given snapshot (row ∷ []) (device, second) r.row
new_topology-Given_example =
    new_topology-Given snapshot (row ∷ []) topology device second topology_new devices_differ
      row_allowed
