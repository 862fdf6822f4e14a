-- ===== src/Base/Word.antt =====
-- Unsigned 64-bit arithmetic: the wrapping, checked and saturating forms that the sources use.
use Prim.Native.Nat.{ℕ, ◌+◌, ◌-◌, ◌*◌, ◌/◌, ◌%◌, ◌^◌}
use mathlib.Core.Option.{Option, none, some}
use mathlib.Core.Path.{◌≡◌}
use native.Mathlib.Omega.{arith}
use hosts.Base.Tests.{ltb, ◌==◌, if◌then◌else◌}

abbrev pub u64_mod : ℕ
u64_mod = 2 ^ 64

abbrev pub u64_max : ℕ
u64_max = 2 ^ 64 - 1

-- `a + b` and `a * b` in a release build wrap.
abbrev pub wrap : ℕ → ℕ
wrap a = a % u64_mod

abbrev pub checked_add : ℕ → ℕ → Option ℕ
checked_add a b = if ltb (a + b) u64_mod then some (a + b) else none

abbrev pub saturating_add : ℕ → ℕ → ℕ
saturating_add a b = if ltb (a + b) u64_mod then a + b else u64_max

-- `wrap` may be left to the end of a sum.
pub wrap-add : (a b : ℕ) → wrap (wrap a + b) ≡ wrap (a + b)
wrap-add a b = omega arith

unfoldable pub saturating_mul : ℕ → ℕ → ℕ
saturating_mul a b = if ltb (a * b) u64_mod then a * b else u64_max

-- `checked_div` with `unwrap_or(0)`.
unfoldable pub div_or_zero : ℕ → ℕ → ℕ
div_or_zero a b = if b == 0 then 0 else a / b
