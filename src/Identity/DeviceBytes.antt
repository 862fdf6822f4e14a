-- ===== src/Identity/DeviceBytes.antt =====
-- The canonical bytes of a device id (crates/host-coordinator/src/device_identity.rs) tell ids apart.
use hosts.Base.{
  ℕ, ◌≡◌, sym, ◌∙◌, List, [], ◌∷◌, ◌++◌, Option, none, some, true, false, arith, Str, ap,
}
use hosts.Identity.Bytes.{push_str, push_bool}
use hosts.Identity.Injective.{
  Code, cons_eq, IsPrefixCode, IsStr, push_str-IsPrefixCode, pair_code, key_code,
}
use hosts.Identity.Device.{
  PhysicalDeviceId, DeviceIdentityFacts, CudaIdentityFacts, cuda_facts, metal_facts, device_bytes,
}

abbrev pub OptionIsStr : Option Str → Type 0
OptionIsStr none = Unit
OptionIsStr (some s) = IsStr s

abbrev pub FactsFit : DeviceIdentityFacts → Type 0
FactsFit (cuda_facts c) = IsStr c.pci_uuid × OptionIsStr c.driver_uuid
FactsFit (metal_facts m) = IsStr m.registry_id

-- Every text of the id has a length that fits 64 bits.
abbrev pub DeviceFits : PhysicalDeviceId → Type 0
DeviceFits id = FactsFit id.facts

driver_bytes : Option Str → List ℕ
driver_bytes none = push_bool false ++ []
driver_bytes (some s) = push_bool true ++ push_str s

driver-IsPrefixCode : IsPrefixCode OptionIsStr driver_bytes
unfolding driver_bytes push_bool
driver-IsPrefixCode none none r s p q h = ground arith
driver-IsPrefixCode none (some b) r s p q h = ground arith
driver-IsPrefixCode (some a) none r s p q h = ground arith
driver-IsPrefixCode (some a) (some b) r s p q h =
    let (e, t) = push_str-IsPrefixCode a b r s p q (ground arith) in (ground arith, t)

abbrev cuda_key : CudaIdentityFacts → Str × Option Str
cuda_key c = (c.pci_uuid, c.driver_uuid)

cuda_code :
    IsPrefixCode
      (λ c. IsStr c.pci_uuid × OptionIsStr c.driver_uuid)
      (λ (c : CudaIdentityFacts). push_str c.pci_uuid ++ driver_bytes c.driver_uuid)
cuda_code =
    key_code _ _
      (pair_code IsStr push_str push_str-IsPrefixCode OptionIsStr driver_bytes driver-IsPrefixCode)
      cuda_key (λ x y h. ground arith)

cuda_bytes :
    (c : CudaIdentityFacts)
    → device_bytes (record { facts = cuda_facts c })
      ≡ 0 ∷ (push_str c.pci_uuid ++ driver_bytes c.driver_uuid)
unfolding device_bytes driver_bytes
cuda_bytes c = ground arith

facts_code :
    (a b : DeviceIdentityFacts) (r s : List ℕ)
    → FactsFit a
    → FactsFit b
    → device_bytes (record { facts = a }) ++ r ≡ device_bytes (record { facts = b }) ++ s
    → (a ≡ b) × (r ≡ s)
unfolding device_bytes
facts_code (cuda_facts a) (cuda_facts b) r s p q h =
    let t =
      (cons_eq (ap (λ v. v ++ r) (sym (cuda_bytes a)) ∙ h ∙ ap (λ v. v ++ s) (cuda_bytes b))).1 in
    let (e, u) = cuda_code a b r s p q t in (ap cuda_facts e, u)
facts_code (cuda_facts a) (metal_facts b) r s p q h = ground arith
facts_code (metal_facts a) (cuda_facts b) r s p q h = ground arith
facts_code (metal_facts a) (metal_facts b) r s p q h =
    let (e, u) = push_str-IsPrefixCode a.registry_id b.registry_id r s p q (cons_eq h).1 in
    (ground arith, u)

-- Followed by anything, the canonical bytes determine the device.
pub device_bytes-IsPrefixCode : IsPrefixCode DeviceFits device_bytes
device_bytes-IsPrefixCode a b r s p q h =
    let (e, u) = facts_code a.facts b.facts r s p q h in (ground arith, u)

abbrev pub device : Code PhysicalDeviceId
device = record { Fits = DeviceFits; enc = device_bytes; determined = device_bytes-IsPrefixCode }
