-- ===== src/Base/Errors.antt =====
-- Python's exceptions as values.
use mathlib.Core.Path.{◌≡◌, refl}
use mathlib.Core.Bool.{Bool, true, false}

pub data Error : Type 0 where
  index_error attribute_error type_error value_error stop_iteration os_error : Error

pub data Result {ℓ} (A : Type ℓ) : Type ℓ where
  ok : A → Result A
  raise : Error → Result A

abbrev pub is_ok {ℓ} : {A : Type ℓ} → Result A → Bool
is_ok (ok a) = true
is_ok (raise e) = false

-- What follows a call is skipped if the call raises.
infixl 10 ◌>>=◌
abbrev pub ◌>>=◌ {ℓ κ} : {A : Type ℓ} {B : Type κ} → Result A → (A → Result B) → Result B
ok a >>= f = f a
raise e >>= f = raise e

-- A value that a last step computes from an earlier call is computed from what the call returned.
pub returned_by_call :
    {A B : Type 0} (finish : A → B) (call : Result A) (value : B)
    → call >>= (λ a. ok (finish a)) ≡ ok value
    → (a : A) × (call ≡ ok a) × (value ≡ finish a)
returned_by_call finish (raise e) value h = cc
returned_by_call finish (ok a) value h = (a, refl, cc)
