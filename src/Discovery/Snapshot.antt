-- ===== src/Discovery/Snapshot.antt =====
-- The discovery snapshot of crates/host-coordinator/src/discovery.rs: the facts of a probe, keyed by
-- ordinal, with the digest of their canonical bytes as id.
use hosts.Base.{
  ℕ, Bool, true, false, List, [], ◌∷◌, ◌++◌, Option, none, some, Str, ◌==◌, ◌||◌, not,
  if◌then◌else◌,
}
use hosts.Base.Order.{nat_ord}
use hosts.Base.Collections.{get, insert}
use hosts.Identity.Bytes.{push_u64, push_u32, push_bool, push_str, push_list}
use hosts.Identity.Device.{PhysicalDeviceId, DeviceBackend, backend, device_bytes}
use hosts.Identity.Health.{is_stale}
use hosts.Discovery.Sha256.{digest}

pub record ComputeCapability : Type 0 where
  pub major : ℕ
  pub minor : ℕ

-- The fields are named for the source's f32, f64, f16, bf16, i8 and i32.
pub record DtypeSurface : Type 0 where
  pub f32 : Bool
  pub f64 : Bool
  pub f16 : Bool
  pub bf16 : Bool
  pub i8 : Bool
  pub i32 : Bool

unfoldable pub empty_surface : DtypeSurface
empty_surface = record {
  f32 = false;
  f64 = false;
  f16 = false;
  bf16 = false;
  i8 = false;
  i32 = false;
}

pub record DeviceCapabilities : Type 0 where
  pub compute_capability : ComputeCapability
  pub sm_count : ℕ
  pub dtype_surface : DtypeSurface
  pub max_threads_per_workgroup : ℕ
  pub workgroup_shared_memory_min_bytes : ℕ
  pub workgroup_shared_memory_max_bytes : ℕ
  pub collective_width : ℕ
  pub unified_memory : Bool

pub record DeviceMemory : Type 0 where
  pub tool_report_total_mib : Option ℕ
  pub api_total_bytes : ℕ

pub data DeviceHealth : Type 0 where
  healthy : DeviceHealth
  degraded : Str → DeviceHealth

pub record ProbeProvenance : Type 0 where
  pub probe : Str
  pub tool_versions : Str

pub data P2pProbeState : Type 0 where
  not_attempted attempted : P2pProbeState

pub record DeviceDiscoveryEntry : Type 0 where
  pub ordinal : ℕ
  pub identity : PhysicalDeviceId
  pub device_model : Option Str
  pub capabilities : DeviceCapabilities
  pub memory : DeviceMemory
  pub health : DeviceHealth
  pub health_generation : ℕ
  pub probe_provenance : ProbeProvenance

unfoldable pub entry_backend : DeviceDiscoveryEntry → DeviceBackend
unfolding backend
entry_backend e = backend e.identity

abbrev pub Devices : Type 0
Devices = List (ℕ × DeviceDiscoveryEntry)

pub record DeviceDiscoverySnapshot : Type 0 where
  pub id : List ℕ
  pub probe_utc_nanos : ℕ
  pub devices : Devices
  pub p2p : P2pProbeState

-- The flag of presence, then the value.
abbrev pub push_option : {A : Type 0} → (A → List ℕ) → Option A → List ℕ
push_option enc none = push_bool false
push_option enc (some x) = push_bool true ++ enc x

unfoldable pub surface_bytes : DtypeSurface → List ℕ
surface_bytes ds =
    push_bool ds.f32
    ++ (push_bool ds.f64
        ++ (push_bool ds.f16 ++ (push_bool ds.bf16 ++ (push_bool ds.i8 ++ push_bool ds.i32))))

unfoldable pub capabilities_bytes : DeviceCapabilities → List ℕ
unfolding surface_bytes
capabilities_bytes c =
    push_u32 c.compute_capability.major
    ++ (push_u32 c.compute_capability.minor
        ++ (push_u32 c.sm_count
            ++ (surface_bytes c.dtype_surface
                ++ (push_u32 c.max_threads_per_workgroup
                    ++ (push_u32 c.workgroup_shared_memory_min_bytes
                        ++ (push_u32 c.workgroup_shared_memory_max_bytes
                            ++ (push_u32 c.collective_width ++ push_bool c.unified_memory)))))))

unfoldable pub health_bytes : DeviceHealth → List ℕ
health_bytes healthy = 0 ∷ []
health_bytes (degraded reason) = 1 ∷ push_str reason

-- The bytes of one round of the loop over the devices.
unfoldable pub entry_bytes : ℕ × DeviceDiscoveryEntry → List ℕ
unfolding capabilities_bytes health_bytes
entry_bytes (k, e) =
    push_u32 k
    ++ (device_bytes e.identity
        ++ (push_option push_str e.device_model
            ++ (capabilities_bytes e.capabilities
                ++ (push_option push_u64 e.memory.tool_report_total_mib
                    ++ (push_u64 e.memory.api_total_bytes
                        ++ (health_bytes e.health
                            ++ (push_u64 e.health_generation
                                ++ (push_str e.probe_provenance.probe
                                    ++ push_str e.probe_provenance.tool_versions))))))))

unfoldable pub p2p_bytes : P2pProbeState → List ℕ
p2p_bytes not_attempted = 0 ∷ []
p2p_bytes attempted = 1 ∷ []

unfoldable pub facts_bytes : ℕ → Devices → P2pProbeState → List ℕ
unfolding entry_bytes p2p_bytes
facts_bytes utc devices p2p = push_u64 utc ++ (push_list entry_bytes devices ++ p2p_bytes p2p)

unfoldable pub canonical_bytes_without_id : DeviceDiscoverySnapshot → List ℕ
unfolding facts_bytes
canonical_bytes_without_id s = facts_bytes s.probe_utc_nanos s.devices s.p2p

abbrev pub canonical_bytes : DeviceDiscoverySnapshot → List ℕ
canonical_bytes s = canonical_bytes_without_id s

-- The assertion that each key is its entry's ordinal.
unfoldable pub keys_match : Devices → Bool
keys_match [] = true
keys_match ((k, e) ∷ ds) = if k == e.ordinal then keys_match ds else false

-- The snapshot that `new` builds, once its assertion holds.
unfoldable pub snapshot_of : ℕ → Devices → P2pProbeState → DeviceDiscoverySnapshot
unfolding facts_bytes
snapshot_of utc devices p2p = record {
  id = digest (facts_bytes utc devices p2p);
  probe_utc_nanos = utc;
  devices = devices;
  p2p = p2p;
}

unfoldable pub new_snapshot : ℕ → Devices → P2pProbeState → Option DeviceDiscoverySnapshot
unfolding keys_match snapshot_of
new_snapshot utc devices p2p =
    if keys_match devices then some (snapshot_of utc devices p2p) else none

unfoldable pub collect_entries : List DeviceDiscoveryEntry → Devices → Devices
collect_entries [] m = m
collect_entries (e ∷ es) m = collect_entries es (insert e.ordinal e m)

unfoldable pub from_enumerated : ℕ → List DeviceDiscoveryEntry → Option DeviceDiscoverySnapshot
unfolding collect_entries new_snapshot
from_enumerated utc entries = new_snapshot utc (collect_entries entries []) not_attempted

unfoldable pub entry : ℕ → DeviceDiscoverySnapshot → Option DeviceDiscoveryEntry
entry ordinal s = get ordinal s.devices

abbrev pub any_stale : ℕ → Devices → Bool
any_stale current [] = false
any_stale current ((k, e) ∷ ds) = is_stale current e.health_generation || any_stale current ds

unfoldable pub snapshot_is_stale : ℕ → DeviceDiscoverySnapshot → Bool
unfolding is_stale
snapshot_is_stale current s = any_stale current s.devices

unfoldable pub is_current_generation : ℕ → DeviceDiscoverySnapshot → Bool
unfolding snapshot_is_stale
is_current_generation current s = not (snapshot_is_stale current s)
