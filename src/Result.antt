-- ===== src/Result.antt =====
-- A Go call that returns (T, error): the value, or a non-nil error.
use helm_c_sdk.Base.{◌≡◌, refl, ◌⊎◌, inl, inr, Option, none, some}
use helm_c_sdk.Errors.{Code, Err, coded}

pub data Result {ℓ} (A : Type ℓ) : Type ℓ where
  ok : A → Result A
  err : Err → Result A

module _ {A B : Type 0} where
  infixl 5 ◌>>=◌
  -- `if err != nil { return zero, err }`
  abbrev pub ◌>>=◌ : Result A → (A → Result B) → Result B
  err failure >>= next = err failure
  ok value >>= next = next value

-- `if err != nil { return WithCode(c, err) }`
abbrev pub or_code {ℓ} : {A : Type ℓ} → Code → Result A → Result A
or_code c (ok a) = ok a
or_code c (err e) = err (coded c e)

-- The error of the pair, nil where the call succeeded.
abbrev pub error_of {ℓ} : {A : Type ℓ} → Result A → Option Err
error_of (ok a) = none
error_of (err e) = some e

-- A bare `error` as a result.
abbrev pub check : Option Err → Result (Unit {0})
check none = ok tt
check (some e) = err e

pub Result-cases {ℓ} :
    {A : Type ℓ} (r : Result A) → ((a : A) × (r ≡ ok a)) ⊎ ((e : Err) × (r ≡ err e))
Result-cases (ok a) = inl (a, refl)
Result-cases (err e) = inr (e, refl)

pub ok-injective {ℓ} : {A : Type ℓ} {a b : A} → ok a ≡ ok b → a ≡ b
ok-injective h = cc

pub err-ne-ok {ℓ} : {A : Type ℓ} {e : Err} {a : A} → err e ≡ ok a → ⊥
err-ne-ok h = cc
