-- ===== src/Identity/Device.antt =====
-- `DeviceBackend` (crates/host-coordinator/src/backend.rs) and `PhysicalDeviceId`
-- (crates/host-coordinator/src/device_identity.rs).
use hosts.Base.{
  ℕ, ◌≡◌, Bool, true, false, ◌++◌, ◌∷◌, [], List, Option, none, some, arith, Str, bytes,
  if◌then◌else◌,
}
use hosts.Base.Order.{Ord, nat_ord, str_ord, pair_ord, key_ord}
use hosts.Base.Collections.{eqb}
use hosts.Identity.Bytes.{push_str, push_bool}

pub data DeviceBackend : Type 0 where
  metal cuda : DeviceBackend

unfoldable pub spelling : DeviceBackend → Str
spelling metal = bytes "metal"
spelling cuda = bytes "cuda"

unfoldable pub from_spelling : Str → Option DeviceBackend
from_spelling s =
    if eqb s (bytes "metal") then some metal else if eqb s (bytes "cuda") then some cuda else none

pub record CudaIdentityFacts : Type 0 where
  pub pci_uuid : Str
  pub driver_uuid : Option Str

pub record MetalIdentityFacts : Type 0 where
  pub registry_id : Str

pub data DeviceIdentityFacts : Type 0 where
  cuda_facts : CudaIdentityFacts → DeviceIdentityFacts
  metal_facts : MetalIdentityFacts → DeviceIdentityFacts

pub record PhysicalDeviceId : Type 0 where
  pub facts : DeviceIdentityFacts

unfoldable pub cuda_id : Str → Option Str → PhysicalDeviceId
cuda_id pci driver = record { facts = cuda_facts (record { pci_uuid = pci; driver_uuid = driver }) }

unfoldable pub metal_id : Str → PhysicalDeviceId
metal_id id = record { facts = metal_facts (record { registry_id = id }) }

abbrev facts_backend : DeviceIdentityFacts → DeviceBackend
facts_backend (cuda_facts c) = cuda
facts_backend (metal_facts m) = metal

unfoldable pub backend : PhysicalDeviceId → DeviceBackend
backend id = facts_backend id.facts

abbrev is_some : Option Str → Bool
is_some none = false
is_some (some s) = true

abbrev push_driver : Option Str → List ℕ
push_driver none = []
push_driver (some uuid) = push_str uuid

abbrev facts_bytes : DeviceIdentityFacts → List ℕ
facts_bytes (cuda_facts c) =
    0 ∷ (push_str c.pci_uuid ++ (push_bool (is_some c.driver_uuid) ++ push_driver c.driver_uuid))
facts_bytes (metal_facts m) = 1 ∷ push_str m.registry_id

unfoldable pub device_bytes : PhysicalDeviceId → List ℕ
device_bytes id = facts_bytes id.facts

-- The derived order: the CUDA ids first, by PCI UUID and then by driver UUID, an absent one first.
abbrev pub DeviceKey : Type 0
DeviceKey = ℕ × (Str × (ℕ × Str))

abbrev option_key : Option Str → ℕ × Str
option_key none = (0, [])
option_key (some s) = (1, s)

abbrev facts_key : DeviceIdentityFacts → DeviceKey
facts_key (cuda_facts c) = (0, (c.pci_uuid, option_key c.driver_uuid))
facts_key (metal_facts m) = (1, (m.registry_id, (0, [])))

abbrev pub device_key : PhysicalDeviceId → DeviceKey
device_key id = facts_key id.facts

option_key_injective : (a b : Option Str) → option_key a ≡ option_key b → a ≡ b
option_key_injective a b h = ground arith

facts_key_injective : (a b : DeviceIdentityFacts) → facts_key a ≡ facts_key b → a ≡ b
facts_key_injective (cuda_facts a) (cuda_facts b) h =
    ground (arith, option_key_injective a.driver_uuid b.driver_uuid)
facts_key_injective (cuda_facts a) (metal_facts b) h = ground arith
facts_key_injective (metal_facts a) (cuda_facts b) h = ground arith
facts_key_injective (metal_facts a) (metal_facts b) h = ground arith

pub device_key_injective : (a b : PhysicalDeviceId) → device_key a ≡ device_key b → a ≡ b
device_key_injective a b h = ground (arith, facts_key_injective a.facts b.facts)

instance unfoldable pub device_ord : Ord PhysicalDeviceId
unfolding key_ord pair_ord
device_ord =
    key_ord device_key device_key_injective
      (pair_ord nat_ord (pair_ord str_ord (pair_ord nat_ord str_ord)))

pub data IdentityChange : Type 0 where
  same_device replaced : IdentityChange

unfoldable pub change_against : PhysicalDeviceId → PhysicalDeviceId → IdentityChange
change_against current previous = if eqb current previous then same_device else replaced
