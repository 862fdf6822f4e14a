-- ===== src/Identity/Health.antt =====
-- `DeviceHealthGeneration` of crates/host-coordinator/src/device_identity.rs, a u64 epoch.
use hosts.Base.{ℕ, Bool, not, ◌==◌}
use hosts.Base.Word.{saturating_add}

unfoldable pub initial : ℕ
initial = 1

unfoldable pub advance : ℕ → ℕ
advance g = saturating_add g 1

unfoldable pub is_stale : ℕ → ℕ → Bool
is_stale current candidate = not (candidate == current)

unfoldable pub is_current : ℕ → ℕ → Bool
is_current current candidate = candidate == current
