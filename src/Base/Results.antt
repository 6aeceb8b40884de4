-- ===== src/Base/Results.antt =====
-- backend/app/core/errors.py: a call that may raise `ApplicationError` returns a `Result`.
use Prim.Native.Nat.{ℕ}
use Prim.Native.String.{String}
use mathlib.Core.Logic.{◌⊎◌, inl, inr}
use mathlib.Core.Path.{◌≡◌, refl}

-- `ApplicationError(code, message, status_code)` and `ConnectorError(code, message)`, whose message is
-- text for people, Python's `ValueError` and `RuntimeError` where the code raises one, and the
-- `IntegrityError` of the database where the code raises it again.
pub data Error : Type 0 where
  application : String → ℕ → Error
  connector_error : String → Error
  value_error runtime_error integrity_error : Error

pub data Result {ℓ} (A : Type ℓ) : Type ℓ where
  ok : A → Result A
  err : Error → Result A

-- `try: m except ValueError as exc: raise e from exc`
abbrev pub except_value_error {ℓ} : {A : Type ℓ} → Result A → Error → Result A
except_value_error (ok a) e = ok a
except_value_error (err value_error) e = err e
except_value_error (err other) e = err other

pub Result-cases {ℓ} :
    {A : Type ℓ} (x : Result A) → ((a : A) × (x ≡ ok a)) ⊎ ((e : Error) × (x ≡ err e))
Result-cases (ok a) = inl (a, refl)
Result-cases (err e) = inr (e, refl)
