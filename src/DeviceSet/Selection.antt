-- ===== src/DeviceSet/Selection.antt =====
-- What a resolved selection holds (crates/host-coordinator/src/device_set.rs,
-- `DeviceSetSelection::resolve`).
use hosts.Base.{
  ℕ, List, [], ◌∷◌, Option, none, some, ok, All, ◌≡◌, ◌↔◌, refl, arith, inl, inr, Result-cases,
}
use hosts.Base.Order.{nat_ord}
use hosts.Identity.Device.{PhysicalDeviceId, device_ord}
use hosts.Identity.Health.{is_stale}
use hosts.Discovery.Snapshot.{DeviceDiscoveryEntry, DeviceDiscoverySnapshot}
use hosts.DeviceSet.{
  DeviceSet, from_members, find_entry, checked_member, validate_member, validate, explicit, resolve,
}

-- The snapshot's first entry for the id is of the current generation.
pub record IsCurrentMember (discovery : DeviceDiscoverySnapshot) (current : ℕ)
    (id : PhysicalDeviceId) : Type 0 where
  pub found : DeviceDiscoveryEntry
  pub recorded : find_entry id discovery ≡ some found
  pub generation : found.health_generation ≡ current

module _ (discovery : DeviceDiscoverySnapshot) (current : ℕ) where
  member_from :
      (id : PhysicalDeviceId) (e : Option DeviceDiscoveryEntry)
      → find_entry id discovery ≡ e
      → checked_member current id e ≡ ok tt
      → IsCurrentMember discovery current id
  unfolding is_stale
  member_from id none f h = absurd (ground arith)
  member_from id (some e) f h = record { found = e; recorded = f; generation = ground arith }

  pub validate_member-IsCurrentMember :
      (id : PhysicalDeviceId)
      → (validate_member discovery current id ≡ ok tt) ↔ IsCurrentMember discovery current id
  unfolding validate_member is_stale
  validate_member-IsCurrentMember id = (
    λ h. member_from id (find_entry id discovery) refl h,
    λ m. ground (arith, m.recorded, m.generation),
  )

  pub validate-IsCurrentMember :
      (set : DeviceSet)
      → (validate discovery current set ≡ ok tt) ↔ All (IsCurrentMember discovery current) set
  unfolding validate
  validate-IsCurrentMember [] = (λ h. tt, λ h. refl)
  validate-IsCurrentMember (id ∷ ids) =
      let (f, g) = validate-IsCurrentMember ids in
      let (p, q) = validate_member-IsCurrentMember id in
      (
        λ h. elim (Result-cases (validate_member discovery current id)) [
          | inl (u, e) ↦ (p e, f (ground (arith, e)))
          | inr (x, e) ↦ absurd (ground (arith, e))
        ],
        λ h. rw (validate, q h.0) (g h.1),
      )

  -- An explicit selection resolves to its ids exactly when each of them is recorded under the current
  -- generation.
  pub resolve-IsCurrentMember :
      (ids : List PhysicalDeviceId)
      → (resolve (explicit ids) discovery current ≡ ok (from_members ids))
        ↔ All (IsCurrentMember discovery current) (from_members ids)
  unfolding resolve
  resolve-IsCurrentMember ids =
      let (f, g) = validate-IsCurrentMember (from_members ids) in
      (
        λ h. elim (Result-cases (validate discovery current (from_members ids))) [
          | inl (u, e) ↦ f e
          | inr (x, e) ↦ absurd (ground (arith, e))
        ],
        λ h. rw (resolve, g h) refl,
      )
