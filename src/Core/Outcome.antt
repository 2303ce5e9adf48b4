-- ===== src/Core/Outcome.antt =====
-- Calls that return `Result<A, PoleError>` or do not come back: `expect`, `unwrap`, an index out of range
-- and a lock that the caller already holds end in `panicked`.
use pole_client_rust.Core.Error.{ErrorCode, Result, ok, err}

pub data Outcome {ℓ} (A : Type ℓ) : Type ℓ where
  value : A → Outcome A
  failed : ErrorCode → Outcome A
  panicked : Outcome A

infixl 5 ◌>>=◌
abbrev pub ◌>>=◌ {ℓ κ} : {A : Type ℓ} {B : Type κ} → Outcome A → (A → Outcome B) → Outcome B
value a >>= f = f a
failed e >>= f = failed e
panicked >>= f = panicked

abbrev pub lift {ℓ} : {A : Type ℓ} → Result A → Outcome A
lift (ok a) = value a
lift (err e) = failed e
