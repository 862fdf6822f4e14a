-- ===== src/DeviceSet.antt =====
-- crates/host-coordinator/src/device_set.rs: device sets, their selection from a discovery snapshot,
-- and the directed links of a topology. A set is the ascending list of its members.
pub mod Selection
pub mod Constraints
pub mod Links
use hosts.Base.{
  ℕ, Bool, true, false, List, [], ◌∷◌, Option, none, some, Str, Result, ok, err, length, ltb, ◌==◌,
  if◌then◌else◌, not,
}
use hosts.Base.Order.{Ord, pair_ord}
use hosts.Base.Collections.{eqb, get, insert, contains, collect, values}
use hosts.Identity.Device.{DeviceBackend, metal, cuda, PhysicalDeviceId, device_ord, backend}
use hosts.Identity.Health.{is_stale}
use hosts.Discovery.Snapshot.{DeviceDiscoveryEntry, Devices, DeviceDiscoverySnapshot}

abbrev pub DeviceSet : Type 0
DeviceSet = List PhysicalDeviceId

unfoldable pub from_members : List PhysicalDeviceId → DeviceSet
unfolding collect
from_members ids = collect ids

unfoldable pub is_singleton : DeviceSet → Bool
is_singleton set = length set == 1

pub data MembershipError : Type 0 where
  unknown_device : PhysicalDeviceId → MembershipError
  stale_epoch : PhysicalDeviceId → ℕ → ℕ → MembershipError

abbrev find_in : PhysicalDeviceId → Devices → Option DeviceDiscoveryEntry
find_in id [] = none
find_in id ((k, e) ∷ ds) = if eqb e.identity id then some e else find_in id ds

unfoldable pub find_entry : PhysicalDeviceId → DeviceDiscoverySnapshot → Option DeviceDiscoveryEntry
find_entry id discovery = find_in id discovery.devices

abbrev pub checked_member :
    ℕ → PhysicalDeviceId → Option DeviceDiscoveryEntry → Result (Unit {0}) MembershipError
checked_member current id none = err (unknown_device id)
checked_member current id (some e) =
    if is_stale current e.health_generation
    then err (stale_epoch id e.health_generation current)
    else ok tt

unfoldable pub validate_member :
    DeviceDiscoverySnapshot → ℕ → PhysicalDeviceId → Result (Unit {0}) MembershipError
unfolding find_entry is_stale
validate_member discovery current id = checked_member current id (find_entry id discovery)

-- The loop of `DeviceSet::validate`.
unfoldable pub validate :
    DeviceDiscoverySnapshot → ℕ → DeviceSet → Result (Unit {0}) MembershipError
unfolding validate_member
validate discovery current [] = ok tt
validate discovery current (id ∷ ids) =
    let rest = validate discovery current ids in
    elim (validate_member discovery current id) [ ok u ↦ rest | err e ↦ err e ]

pub record DeviceSetConstraints : Type 0 where
  pub backend : Option DeviceBackend
  pub exclude : List PhysicalDeviceId
  pub min_count : ℕ
  pub max_count : Option ℕ

pub data DeviceSetSelection : Type 0 where
  explicit : List PhysicalDeviceId → DeviceSetSelection
  constraints : DeviceSetConstraints → DeviceSetSelection

pub data SelectionError : Type 0 where
  membership : MembershipError → SelectionError
  below_minimum above_maximum : ℕ → ℕ → SelectionError

abbrev pub same_backend : DeviceBackend → DeviceBackend → Bool
same_backend metal metal = true
same_backend cuda cuda = true
same_backend metal cuda = false
same_backend cuda metal = false

abbrev pub meets_backend : Option DeviceBackend → PhysicalDeviceId → Bool
meets_backend none id = true
meets_backend (some b) id = same_backend (hosts.Identity.Device.backend id) b

-- The tests of one round of the loop over the snapshot's devices.
unfoldable pub selectable : DeviceSetConstraints → ℕ → DeviceDiscoveryEntry → Bool
unfolding backend is_stale contains
selectable c current e =
    if is_stale current e.health_generation
    then false
    else if not (meets_backend c.backend e.identity)
    then false
    else not (contains e.identity c.exclude)

unfoldable pub select : DeviceSetConstraints → ℕ → Devices → List PhysicalDeviceId
unfolding selectable
select c current [] = []
select c current ((k, e) ∷ ds) =
    let rest = select c current ds in if selectable c current e then e.identity ∷ rest else rest

abbrev pub within_maximum : Option ℕ → DeviceSet → Result DeviceSet SelectionError
within_maximum none set = ok set
within_maximum (some max) set =
    if ltb max (length set) then err (above_maximum max (length set)) else ok set

abbrev pub within_bounds : DeviceSetConstraints → DeviceSet → Result DeviceSet SelectionError
within_bounds c set =
    if ltb (length set) c.min_count
    then err (below_minimum c.min_count (length set))
    else within_maximum c.max_count set

unfoldable pub resolve :
    DeviceSetSelection → DeviceDiscoverySnapshot → ℕ → Result DeviceSet SelectionError
unfolding from_members validate select
resolve (explicit ids) discovery current =
    let set = from_members ids in
    elim (validate discovery current set) [ ok u ↦ ok set | err e ↦ err (membership e) ]
resolve (constraints c) discovery current =
    within_bounds c (from_members (select c current discovery.devices))

pub data LinkPathClass : Type 0 where
  peer host_staged_link : LinkPathClass

pub record LinkFacts : Type 0 where
  pub bandwidth_bytes_per_sec : ℕ
  pub latency_nanos : ℕ

pub data DeviceLinkState : Type 0 where
  admitted_link : LinkPathClass → LinkFacts → DeviceLinkState
  link_not_attempted : DeviceLinkState
  rejected_link : Str → DeviceLinkState

pub record DeviceLink : Type 0 where
  pub from : PhysicalDeviceId
  pub to : PhysicalDeviceId
  pub state : DeviceLinkState

-- `DeviceLink::admitted`, `not_attempted` and `rejected` with their assertion.
unfoldable pub link : PhysicalDeviceId → PhysicalDeviceId → DeviceLinkState → Option DeviceLink
link from to state =
    if eqb from to then none else some (record { from = from; to = to; state = state })

abbrev pub DevicePair : Type 0
DevicePair = PhysicalDeviceId × PhysicalDeviceId

instance unfoldable pub device_pair_ord : Ord DevicePair
unfolding pair_ord device_ord
device_pair_ord = pair_ord device_ord device_ord

pub record DeviceTopologySnapshot : Type 0 where
  pub discovery : DeviceDiscoverySnapshot
  pub links : List (DevicePair × DeviceLink)

abbrev pub is_recorded : Option DeviceDiscoveryEntry → Bool
is_recorded none = false
is_recorded (some e) = true

-- The assertions on one link.
unfoldable pub link_fits : DeviceDiscoverySnapshot → DeviceLink → Bool
unfolding find_entry
link_fits discovery l =
    if eqb l.from l.to
    then false
    else if is_recorded (find_entry l.from discovery)
    then is_recorded (find_entry l.to discovery)
    else false

unfoldable pub insert_links :
    DeviceDiscoverySnapshot
    → List DeviceLink
    → List (DevicePair × DeviceLink)
    → Option (List (DevicePair × DeviceLink))
unfolding link_fits
insert_links discovery [] by_pair = some by_pair
insert_links discovery (l ∷ ls) by_pair =
    let rest = insert_links discovery ls (insert (l.from, l.to) l by_pair) in
    if link_fits discovery l then rest else none

abbrev pub topology_of :
    DeviceDiscoverySnapshot
    → Option (List (DevicePair × DeviceLink))
    → Option DeviceTopologySnapshot
topology_of discovery none = none
topology_of discovery (some by_pair) = some (record { discovery = discovery; links = by_pair })

unfoldable pub new_topology :
    DeviceDiscoverySnapshot → List DeviceLink → Option DeviceTopologySnapshot
unfolding insert_links
new_topology discovery links = topology_of discovery (insert_links discovery links [])

pub data LinkGateError : Type 0 where
  unknown_endpoint : PhysicalDeviceId → LinkGateError
  no_link_recorded not_attempted_link : PhysicalDeviceId → PhysicalDeviceId → LinkGateError
  link_rejected : PhysicalDeviceId → PhysicalDeviceId → Str → LinkGateError

abbrev pub gate_state :
    PhysicalDeviceId → PhysicalDeviceId → DeviceLinkState → Result (Unit {0}) LinkGateError
gate_state from to (admitted_link path facts) = ok tt
gate_state from to link_not_attempted = err (not_attempted_link from to)
gate_state from to (rejected_link reason) = err (link_rejected from to reason)

abbrev pub gate_link :
    PhysicalDeviceId → PhysicalDeviceId → Option DeviceLink → Result (Unit {0}) LinkGateError
gate_link from to none = err (no_link_recorded from to)
gate_link from to (some l) = gate_state from to l.state

unfoldable pub traversal_allowed :
    PhysicalDeviceId → PhysicalDeviceId → DeviceTopologySnapshot → Result (Unit {0}) LinkGateError
unfolding find_entry
traversal_allowed from to t =
    if eqb from to
    then ok tt
    else if not (is_recorded (find_entry from t.discovery))
    then err (unknown_endpoint from)
    else if not (is_recorded (find_entry to t.discovery))
    then err (unknown_endpoint to)
    else gate_link from to (get (from, to) t.links)
