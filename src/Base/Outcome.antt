-- ===== src/Base/Outcome.antt =====
-- Rust's `Result`, generic in its error.
use mathlib.Core.Path.{◌≡◌, refl}
use mathlib.Core.Logic.{◌⊎◌, inl, inr}

-- How a fallible call ends early: with its error, or in a panic.
pub data Raise {ℓ} (E : Type ℓ) : Type ℓ where
  panicked : Raise E
  raised : E → Raise E

pub data Result {κ ℓ} (Value : Type ℓ) (Error : Type κ) : Type (κ ⊔ ℓ) where
  err : Error → Result Value Error
  ok : Value → Result Value Error

-- An answer is a value or an error, with the equation that says so.
pub Result-cases {κ ℓ} :
    {Error : Type κ} {Value : Type ℓ} (answer : Result Value Error)
    → ((v : Value) × (answer ≡ ok v)) ⊎ ((problem : Error) × (answer ≡ err problem))
Result-cases (err problem) = inr (problem, refl)
Result-cases (ok v) = inl (v, refl)
