-- ===== src/Discovery/Facts.antt =====
-- What a discovery snapshot of crates/host-coordinator/src/discovery.rs determines: its canonical
-- bytes tell the facts of two probes apart.
use hosts.Base.{
  ℕ, Bool, true, List, [], ◌∷◌, Option, none, some, Str, ◌≡◌, ap, sym, ◌∙◌, arith, length, All, inl,
  inr, Bool-cases,
}
use hosts.Identity.Bytes.{push_bool}
use hosts.Identity.Device.{PhysicalDeviceId}
use hosts.Identity.DeviceBytes.{device}
use hosts.Identity.Injective.{
  Code, IsPrefixCode, cons_eq, word, word32, flag, text, list, ◌then_code◌, by_key, enc_injective,
}
use hosts.Discovery.Snapshot.{
  DtypeSurface, DeviceCapabilities, DeviceHealth, healthy, degraded, P2pProbeState,
  DeviceDiscoveryEntry, Devices, DeviceDiscoverySnapshot, push_option, surface_bytes,
  capabilities_bytes, health_bytes, entry_bytes, p2p_bytes, facts_bytes, keys_match, snapshot_of,
  new_snapshot, canonical_bytes_without_id,
}

abbrev OptionFits : {A : Type 0} → (A → Type 0) → Option A → Type 0
OptionFits P none = Unit
OptionFits P (some x) = P x

pub option_code :
    {A : Type 0} (P : A → Type 0) (enc : A → List ℕ)
    → IsPrefixCode P enc
    → IsPrefixCode (OptionFits P) (push_option enc)
unfolding push_bool
option_code P enc code none none r s p q h = ground arith
option_code P enc code none (some b) r s p q h = ground arith
option_code P enc code (some a) none r s p q h = ground arith
option_code P enc code (some a) (some b) r s p q h =
    let (e, t) = code a b r s p q (cons_eq h).1 in (ap some e, t)

abbrev optional : {A : Type 0} → Code A → Code (Option A)
optional c = record {
  Fits = OptionFits c.Fits;
  enc = push_option c.enc;
  determined = option_code c.Fits c.enc c.determined;
}

abbrev surface_key : DtypeSurface → Bool × (Bool × (Bool × (Bool × (Bool × Bool))))
surface_key ds = (ds.f32, (ds.f64, (ds.f16, (ds.bf16, (ds.i8, ds.i32)))))

pub surface_key_injective : (x y : DtypeSurface) → surface_key x ≡ surface_key y → x ≡ y
surface_key_injective x y h = ground arith

abbrev surface : Code DtypeSurface
surface =
    by_key surface_key surface_key_injective
      (flag then_code flag then_code flag then_code flag then_code flag then_code flag)

abbrev CapabilitiesKey : Type 0
CapabilitiesKey = ℕ × (ℕ × (ℕ × (DtypeSurface × (ℕ × (ℕ × (ℕ × (ℕ × Bool)))))))

abbrev capabilities_key : DeviceCapabilities → CapabilitiesKey
capabilities_key c = (
  c.compute_capability.major,
  (
    c.compute_capability.minor,
    (
      c.sm_count,
      (
        c.dtype_surface,
        (
          c.max_threads_per_workgroup,
          (
            c.workgroup_shared_memory_min_bytes,
            (c.workgroup_shared_memory_max_bytes, (c.collective_width, c.unified_memory)),
          ),
        ),
      ),
    ),
  ),
)

pub capabilities_key_injective :
    (x y : DeviceCapabilities) → capabilities_key x ≡ capabilities_key y → x ≡ y
capabilities_key_injective x y h = ground arith

abbrev capabilities : Code DeviceCapabilities
capabilities = by_key capabilities_key capabilities_key_injective (
    word32 then_code word32 then_code word32 then_code surface then_code word32 then_code word32
    then_code word32 then_code word32 then_code flag)

abbrev HealthFits : DeviceHealth → Type 0
HealthFits healthy = Unit
HealthFits (degraded reason) = text.Fits reason

pub health_code : IsPrefixCode HealthFits health_bytes
unfolding health_bytes
health_code healthy healthy r s p q h = ground arith
health_code healthy (degraded b) r s p q h = ground arith
health_code (degraded a) healthy r s p q h = ground arith
health_code (degraded a) (degraded b) r s p q h =
    let (e, t) = text.determined a b r s p q (cons_eq h).1 in (ap degraded e, t)

abbrev health : Code DeviceHealth
health = record { Fits = HealthFits; enc = health_bytes; determined = health_code }

p2p_code : IsPrefixCode (λ (p : P2pProbeState). Unit {0}) p2p_bytes
unfolding p2p_bytes
p2p_code a b r s p q h = ground arith

abbrev p2p : Code P2pProbeState
p2p = record { Fits = λ q. Unit {0}; enc = p2p_bytes; determined = p2p_code }

abbrev EntryKey : Type 0
EntryKey =
    ℕ
    × (PhysicalDeviceId
        × (Option Str
            × (DeviceCapabilities × (Option ℕ × (ℕ × (DeviceHealth × (ℕ × (Str × Str))))))))

abbrev Row : Type 0
Row = ℕ × DeviceDiscoveryEntry

abbrev entry_key : Row → EntryKey
entry_key (k, e) = (
  k,
  (
    e.identity,
    (
      e.device_model,
      (
        e.capabilities,
        (
          e.memory.tool_report_total_mib,
          (
            e.memory.api_total_bytes,
            (
              e.health,
              (e.health_generation, (e.probe_provenance.probe, e.probe_provenance.tool_versions)),
            ),
          ),
        ),
      ),
    ),
  ),
)

abbrev entry : Code EntryKey
entry =
    word32
    then_code device
    then_code optional text
    then_code capabilities
    then_code optional word
    then_code word
    then_code health
    then_code word
    then_code text
    then_code text

-- The words and texts of a device's facts fit their widths.
abbrev pub EntryFits : Row → Type 0
EntryFits r = entry.Fits (entry_key r)

entry_key_injective :
    (x y : Row) → x.0 ≡ x.1.ordinal → y.0 ≡ y.1.ordinal → entry_key x ≡ entry_key y → x ≡ y
entry_key_injective x y p q h = ground arith

row_code : IsPrefixCode (λ (x : Row). EntryFits x × (x.0 ≡ x.1.ordinal)) entry_bytes
unfolding entry_bytes capabilities_bytes surface_bytes
row_code x y r s p q h =
    let (e, t) = entry.determined (entry_key x) (entry_key y) r s p.0 q.0 h in
    (entry_key_injective x y p.1 q.1 e, t)

abbrev row : Code Row
row = record {
  Fits = λ (x : Row). EntryFits x × (x.0 ≡ x.1.ordinal);
  enc = entry_bytes;
  determined = row_code;
}

-- The probe's time, the number of devices and every word and text of an entry fit their widths.
pub record SnapshotFits (s : DeviceDiscoverySnapshot) : Type 0 where
  pub time_fits : word.Fits s.probe_utc_nanos
  pub count_fits : word.Fits (length s.devices)
  pub entries_fit : All EntryFits s.devices

rows_fit :
    (ds : Devices)
    → All EntryFits ds
    → keys_match ds ≡ true
    → All (λ (x : Row). EntryFits x × (x.0 ≡ x.1.ordinal)) ds
unfolding keys_match
rows_fit [] h m = tt
rows_fit ((k, e) ∷ ds) h m = ((h.0, ground arith), rows_fit ds h.1 (ground arith))

-- What an accepted `new` returns.
pub new_snapshot_lem :
    (utc : ℕ) (devices : Devices) (p : P2pProbeState) (s : DeviceDiscoverySnapshot)
    → new_snapshot utc devices p ≡ some s
    → (keys_match devices ≡ true) × (s ≡ snapshot_of utc devices p)
unfolding new_snapshot
new_snapshot_lem utc devices p s h = elim (Bool-cases (keys_match devices)) [
  | inl e ↦ (e, ground arith)
  | inr e ↦ absurd (ground arith)
]

abbrev facts : Code (ℕ × (Devices × P2pProbeState))
facts = word then_code list row then_code p2p

snapshot_facts :
    (utc utc' : ℕ) (ds ds' : Devices) (p p' : P2pProbeState)
    → SnapshotFits (snapshot_of utc ds p)
    → SnapshotFits (snapshot_of utc' ds' p')
    → keys_match ds ≡ true
    → keys_match ds' ≡ true
    → facts_bytes utc ds p ≡ facts_bytes utc' ds' p'
    → snapshot_of utc ds p ≡ snapshot_of utc' ds' p'
unfolding facts_bytes snapshot_of
snapshot_facts utc utc' ds ds' p p' f f' m m' h =
    let e =
      enc_injective facts (utc, (ds, p)) (utc', (ds', p'))
        (f.time_fits, ((f.count_fits, rows_fit ds f.entries_fit m), tt))
        (f'.time_fits, ((f'.count_fits, rows_fit ds' f'.entries_fit m'), tt)) h in
    ap (λ (x : ℕ × (Devices × P2pProbeState)). snapshot_of x.0 x.1.0 x.1.1) e

-- Snapshots that `new` built and that have the same canonical bytes are equal, their ids included,
-- where every word and every text's length fits its width.
pub snapshot_bytes_injective :
    (utc utc' : ℕ) (ds ds' : Devices) (p p' : P2pProbeState) (a b : DeviceDiscoverySnapshot)
    → new_snapshot utc ds p ≡ some a
    → new_snapshot utc' ds' p' ≡ some b
    → SnapshotFits a
    → SnapshotFits b
    → canonical_bytes_without_id a ≡ canonical_bytes_without_id b
    → a ≡ b
unfolding canonical_bytes_without_id snapshot_of
snapshot_bytes_injective utc utc' ds ds' p p' a b n n' f f' h =
    let (m, e) = new_snapshot_lem utc ds p a n in
    let (m', e') = new_snapshot_lem utc' ds' p' b n' in
    let g =
      snapshot_facts utc utc' ds ds' p p' (rw (sym e) f) (rw (sym e') f') m m'
        (ap canonical_bytes_without_id (sym e) ∙ h ∙ ap canonical_bytes_without_id e') in
    e ∙ g ∙ sym e'
