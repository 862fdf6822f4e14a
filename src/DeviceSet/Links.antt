-- ===== src/DeviceSet/Links.antt =====
-- Which traversals a topology allows (crates/host-coordinator/src/device_set.rs,
-- `DeviceTopologySnapshot`).
use hosts.Base.{
  true, false, List, [], ◌∷◌, Option, none, some, ok, Member, ◌≡◌, ◌≢◌, ◌↔◌, ◌⊎◌, refl, sym, arith,
  inl, inr, Bool-cases,
}
use mathlib.Core.Path.{subst}
use hosts.Base.Collections.{eqb, eq_of_eqb, eqb_self, ne_of_eqb, get, insert, get-insert}
use hosts.Identity.Device.{PhysicalDeviceId, device_ord}
use hosts.Discovery.Snapshot.{DeviceDiscoverySnapshot}
use hosts.DeviceSet.{
  find_entry, LinkPathClass, LinkFacts, DeviceLinkState, admitted_link, link_not_attempted,
  rejected_link, DeviceLink, DevicePair, device_pair_ord, DeviceTopologySnapshot, is_recorded,
  link_fits, insert_links, topology_of, new_topology, gate_state, gate_link, traversal_allowed,
}

-- Both ends are recorded devices, and the row between them is an admitted link.
pub record AdmittedRow (from to : PhysicalDeviceId) (t : DeviceTopologySnapshot) : Type 0 where
  pub from_known : is_recorded (find_entry from t.discovery) ≡ true
  pub to_known : is_recorded (find_entry to t.discovery) ≡ true
  pub row : DeviceLink
  pub recorded : get (from, to) t.links ≡ some row
  pub path : LinkPathClass
  pub facts : LinkFacts
  pub admitted : row.state ≡ admitted_link path facts

module _ (from to : PhysicalDeviceId) (t : DeviceTopologySnapshot) where
  row_from :
      (r : Option DeviceLink)
      → get (from, to) t.links ≡ r
      → is_recorded (find_entry from t.discovery) ≡ true
      → is_recorded (find_entry to t.discovery) ≡ true
      → gate_link from to r ≡ ok tt
      → AdmittedRow from to t
  row_from none e f g h = absurd (ground arith)
  row_from (some l) e f g h = state_from l.state refl h
    where
      state_from :
          (s : DeviceLinkState) → l.state ≡ s → gate_state from to s ≡ ok tt → AdmittedRow from to t
      state_from (admitted_link p facts) q k = record {
        from_known = f;
        to_known = g;
        row = l;
        recorded = e;
        path = p;
        facts = facts;
        admitted = q;
      }
      state_from link_not_attempted q k = absurd (ground arith)
      state_from (rejected_link reason) q k = absurd (ground arith)

  -- A traversal is allowed exactly within one device or over an admitted link between two devices
  -- that the topology records.
  pub traversal_allowed-AdmittedRow :
      (traversal_allowed from to t ≡ ok tt) ↔ ((from ≡ to) ⊎ AdmittedRow from to t)
  unfolding traversal_allowed
  traversal_allowed-AdmittedRow = (only, back)
    where
      only : traversal_allowed from to t ≡ ok tt → (from ≡ to) ⊎ AdmittedRow from to t
      only h = elim (Bool-cases (eqb from to)) [
        | inl e ↦ inl (eq_of_eqb from to e)
        | inr e ↦ inr (
            row_from (get (from, to) t.links) refl (ground (arith, e)) (ground (arith, e))
              (ground (arith, e)))
      ]

      back : (from ≡ to) ⊎ AdmittedRow from to t → traversal_allowed from to t ≡ ok tt
      back (inl e) = ground (arith, e, eqb_self to)
      back (inr r) = ground (arith, r.from_known, r.to_known, r.recorded, r.admitted)

-- Where a row of a topology comes from.
pub record Given (discovery : DeviceDiscoverySnapshot) (ls : List DeviceLink) (k : DevicePair)
    (l : DeviceLink) : Type 0 where
  pub listed : Member l ls
  pub keyed : (l.from, l.to) ≡ k
  pub distinct : l.from ≢ l.to
  pub from_known : is_recorded (find_entry l.from discovery) ≡ true
  pub to_known : is_recorded (find_entry l.to discovery) ≡ true

module _ (discovery : DeviceDiscoverySnapshot) (k : DevicePair) (l : DeviceLink) where
  row_later :
      (d : DeviceLink) (ls : List DeviceLink)
      → Given discovery ls k l
      → Given discovery (d ∷ ls) k l
  row_later d ls g = record {
    listed = inr g.listed;
    keyed = g.keyed;
    distinct = g.distinct;
    from_known = g.from_known;
    to_known = g.to_known;
  }

  row_here :
      (d : DeviceLink) (ls : List DeviceLink) (m : List (DevicePair × DeviceLink))
      → link_fits discovery d ≡ true
      → get k (insert (d.from, d.to) d m) ≡ some l
      → Given discovery (d ∷ ls) k l ⊎ (get k m ≡ some l)
  unfolding link_fits
  row_here d ls m f h = elim (Bool-cases (eqb k (d.from, d.to))) [
    | inl e ↦
        let q : d ≡ l = ground (arith, get-insert k (d.from, d.to) d m) in
        let x : eqb d.from d.to ≡ false = ground arith in
        inl (
          subst (λ (x : DeviceLink). Given discovery (d ∷ ls) k x) q
            (record {
              listed = inl refl;
              keyed = sym (eq_of_eqb k (d.from, d.to) e);
              distinct = ne_of_eqb d.from d.to x;
              from_known = ground arith;
              to_known = ground arith;
            }))
    | inr e ↦ inr (ground (arith, get-insert k (d.from, d.to) d m))
  ]

  inserted :
      (ls : List DeviceLink) (m m' : List (DevicePair × DeviceLink))
      → insert_links discovery ls m ≡ some m'
      → get k m' ≡ some l
      → Given discovery ls k l ⊎ (get k m ≡ some l)
  unfolding insert_links
  inserted [] m m' h g = inr (ground arith)
  inserted (d ∷ ls) m m' h g = elim (Bool-cases (link_fits discovery d)) [
    | inl f ↦ elim (inserted ls (insert (d.from, d.to) d m) m' (ground (arith, f)) g) [
      | inl x ↦ inl (row_later d ls x)
      | inr x ↦ row_here d ls m f x
    ]
    | inr f ↦ absurd (ground (arith, f))
  ]

empty_get : (k : DevicePair) (l : DeviceLink) → ¬ (get k [] ≡ some l)
unfolding get
empty_get k l h = cc

-- In a topology that `new` built, a traversal between two devices is allowed only over one of the
-- given links, admitted and recorded between exactly these two devices of the snapshot.
pub new_topology-Given :
    (discovery : DeviceDiscoverySnapshot) (ls : List DeviceLink) (t : DeviceTopologySnapshot)
    (from to : PhysicalDeviceId)
    → new_topology discovery ls ≡ some t
    → from ≢ to
    → traversal_allowed from to t ≡ ok tt
    → (row : AdmittedRow from to t) × Given discovery ls (from, to) row.row
unfolding new_topology
new_topology-Given discovery ls t from to n d h = built (insert_links discovery ls []) refl n
  where
    allowed : AdmittedRow from to t
    allowed = elim ((traversal_allowed-AdmittedRow from to t).0 h) [
      | inl e ↦ absurd (d e)
      | inr r ↦ r
    ]

    built :
        (m : Option (List (DevicePair × DeviceLink)))
        → insert_links discovery ls [] ≡ m
        → topology_of discovery m ≡ some t
        → (row : AdmittedRow from to t) × Given discovery ls (from, to) row.row
    built none e q = absurd (ground arith)
    built (some m) e q =
        let g : get (from, to) m ≡ some allowed.row = ground (arith, allowed.recorded) in
        elim (inserted discovery (from, to) allowed.row ls [] m e g) [
          | inl x ↦ (allowed, x)
          | inr x ↦ absurd (empty_get _ _ x)
        ]
