-- ===== src/Prelude/Raise.antt =====
-- Python exceptions as values. A method that mutates its arguments is a state monad in which the
-- state comes back after a raise too, since what was written stays written.
use mathlib.Core.Path.{◌≡◌, refl}
use mathlib.Core.Logic.{◌⊎◌, inl, inr}
use mathlib.Core.Bool.{Bool, true, false}
use Prim.Native.String.{String}

-- pydantic's ValidationError, Python's ValueError, IndexError, ZeroDivisionError, KeyError and
-- TypeError, and what a call of the exchange raises.
pub data Error : Type 0 where
  validation : Error
  value_error : Error
  index_error : Error
  zero_division : Error
  key_error : Error
  type_error : Error
  exchange_error : String → Error

pub data Result {ℓ} (A : Type ℓ) : Type ℓ where
  ok : A → Result A
  err : Error → Result A

abbrev pub is_ok {ℓ} : {A : Type ℓ} → Result A → Bool
is_ok (ok a) = true
is_ok (err e) = false

-- The call returns.
abbrev pub Returns {ℓ} : {A : Type ℓ} → Result A → Type ℓ
Returns {A} r = (a : A) × (r ≡ ok a)

pub is_ok-Returns {ℓ} : {A : Type ℓ} (r : Result A) → is_ok r ≡ true → Returns r
is_ok-Returns (ok a) h = (a, refl)
is_ok-Returns (err e) h = cc

pub Result-cases {ℓ} : {A : Type ℓ} (r : Result A) → Returns r ⊎ ((e : Error) × (r ≡ err e))
Result-cases (ok a) = inl (a, refl)
Result-cases (err e) = inr (e, refl)
