-- ===== src/Discovery/Enumerated.antt =====
-- Snapshots from enumerated entries, their staleness, and the hex of their ids
-- (crates/host-coordinator/src/discovery.rs).
use hosts.Base.{
  ℕ, true, false, List, [], ◌∷◌, Option, none, some, ◌==◌, if◌then◌else◌, ◌≡◌, ◌↔◌, refl, arith,
  All, inl, inr, Bool-cases,
}
use hosts.Base.Order.{nat_ord}
use hosts.Base.Collections.{get, insert, get-insert, eqb, eq_of_eqb, eqb_self}
use hosts.Identity.Health.{is_stale}
use hosts.Discovery.Snapshot.{
  DeviceDiscoveryEntry, Devices, DeviceDiscoverySnapshot, not_attempted, keys_match, snapshot_of,
  new_snapshot, collect_entries, from_enumerated, entry, any_stale, snapshot_is_stale,
  is_current_generation,
}

insert-keys_match :
    (e : DeviceDiscoveryEntry) (ds : Devices)
    → keys_match ds ≡ true
    → keys_match (insert e.ordinal e ds) ≡ true
unfolding keys_match insert
insert-keys_match e [] h = ground arith
insert-keys_match e ((k, d) ∷ ds) h = ground (arith, insert-keys_match e ds)

collect_entries-keys_match :
    (es : List DeviceDiscoveryEntry) (ds : Devices)
    → keys_match ds ≡ true
    → keys_match (collect_entries es ds) ≡ true
unfolding collect_entries
collect_entries-keys_match [] ds h = h
collect_entries-keys_match (e ∷ es) ds h =
    collect_entries-keys_match es (insert e.ordinal e ds) (insert-keys_match e ds h)

-- The last of the entries with that ordinal, or else the default.
abbrev pub last_at :
    ℕ → List DeviceDiscoveryEntry → Option DeviceDiscoveryEntry → Option DeviceDiscoveryEntry
last_at k [] d = d
last_at k (e ∷ es) d = last_at k es (if k == e.ordinal then some e else d)

eqb_nat : (a b : ℕ) → eqb a b ≡ (a == b)
eqb_nat a b = elim (Bool-cases (eqb a b)) [
  | inl e ↦ ground (arith, eq_of_eqb a b)
  | inr e ↦ ground (arith, eqb_self a)
]

collect_entries-get :
    (k : ℕ) (es : List DeviceDiscoveryEntry) (ds : Devices)
    → get k (collect_entries es ds) ≡ last_at k es (get k ds)
unfolding collect_entries
collect_entries-get k [] ds = refl
collect_entries-get k (e ∷ es) ds =
    rw
      (
        collect_entries-get k es (insert e.ordinal e ds),
        get-insert k e.ordinal e ds,
        eqb_nat k e.ordinal,
      )
      refl

-- What a snapshot of enumerated entries holds.
pub record Catalogue (utc : ℕ) (es : List DeviceDiscoveryEntry) (s : DeviceDiscoverySnapshot)
    : Type 0 where
  pub built : from_enumerated utc es ≡ some s
  pub time : s.probe_utc_nanos ≡ utc
  pub pairs : s.p2p ≡ not_attempted
  pub holds : (k : ℕ) → entry k s ≡ last_at k es none

-- `from_enumerated` never panics: it records the probe's time, no peer probe, and under each ordinal
-- the last entry that has it.
pub from_enumerated-Catalogue :
    (utc : ℕ) (es : List DeviceDiscoveryEntry)
    → Catalogue utc es (snapshot_of utc (collect_entries es []) not_attempted)
unfolding from_enumerated new_snapshot entry snapshot_of get keys_match
from_enumerated-Catalogue utc es =
    let m = collect_entries-keys_match es [] refl in
    record {
      built = rw m refl;
      time = refl;
      pairs = refl;
      holds = λ k. collect_entries-get k es [];
    }

abbrev pub AllAt : ℕ → Devices → Type 0
AllAt current ds = All (λ (r : ℕ × DeviceDiscoveryEntry). r.1.health_generation ≡ current) ds

none_stale : (current : ℕ) (ds : Devices) → (any_stale current ds ≡ false) ↔ AllAt current ds
unfolding is_stale
none_stale current [] = (λ h. tt, λ h. refl)
none_stale current ((k, e) ∷ ds) =
    let (f, g) = none_stale current ds in
    (λ h. (ground arith, f (ground arith)), λ h. ground (arith, g h.1, h.0))

-- A snapshot is of the current generation exactly when each of its entries is.
pub is_current_generation-AllAt :
    (current : ℕ) (s : DeviceDiscoverySnapshot)
    → (is_current_generation current s ≡ true) ↔ AllAt current s.devices
unfolding is_current_generation snapshot_is_stale
is_current_generation-AllAt current s =
    let (f, g) = none_stale current s.devices in (λ h. f (ground arith), λ h. ground (arith, g h))
