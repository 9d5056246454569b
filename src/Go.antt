-- ===== src/Go.antt =====
-- Go functions that change the process and return (T, error) or panic.
pub mod Laws
pub mod Ensures
use helm_c_sdk.Base.{Option, none, some, String, List, [], ◌∷◌}
use helm_c_sdk.Errors.{Code, Err, coded}
use helm_c_sdk.Result.{Result, ok, err}

-- How a call ends.
pub data Outcome (A : Type 0) : Type 0 where
  returns : A → Outcome A
  fails : Err → Outcome A
  panics : String → Outcome A

abbrev pub Go : Type 0 → Type 0 → Type 0
Go S A = S → Outcome A × S

module _ {S A : Type 0} where
  unfoldable pub pure : A → Go S A
  pure a s = (returns a, s)

  unfoldable pub fail : Err → Go S A
  fail e s = (fails e, s)

  unfoldable pub lift : Result A → Go S A
  lift (ok a) s = (returns a, s)
  lift (err e) s = (fails e, s)

  unfoldable pub gets : (S → A) → Go S A
  gets f s = (returns (f s), s)

unfoldable pub modify : {S : Type 0} → (S → S) → Go S (Unit {0})
modify f s = (returns tt, f s)

-- `defer`: the clean-up runs however the body ends.
unfoldable pub deferred : {S A : Type 0} → Go S A → (S → S) → Go S A
deferred m cleanup s = let (r, s') = m s in (r, cleanup s')

abbrev pub recode : {A : Type 0} → Code → Outcome A → Outcome A
recode c (returns a) = returns a
recode c (fails e) = fails (coded c e)
recode c (panics m) = panics m

module _ {S A : Type 0} where
  -- `if err != nil { return WithCode(c, err) }`
  unfoldable pub with_error_code : Code → Go S A → Go S A
  with_error_code c m s = let (r, s') = m s in (recode c r, s')

  abbrev pub attempt_of : Outcome A → S → Outcome (Result A) × S
  attempt_of (returns a) s = (returns (ok a), s)
  attempt_of (fails e) s = (returns (err e), s)
  attempt_of (panics m) s = (panics m, s)

  -- The (T, error) pair as a value, for code that looks at the error.
  unfoldable pub attempt : Go S A → Go S (Result A)
  attempt m s = let (r, s') = m s in attempt_of r s'

module _ {S A B : Type 0} where
  abbrev pub continue : Outcome A → (A → Go S B) → Go S B
  continue (returns a) f s = f a s
  continue (fails e) f s = (fails e, s)
  continue (panics m) f s = (panics m, s)

  infixl 5 ◌>>=◌ ◌>>◌
  -- Opening this opens the functions above too.
  unfoldable pub ◌>>=◌ : Go S A → (A → Go S B) → Go S B
  unfolding pure fail lift gets modify deferred with_error_code attempt
  ◌>>=◌ m f s = let (r, s') = m s in continue r f s'

  abbrev pub ◌>>◌ : Go S A → Go S B → Go S B
  m >> k = m >>= λ _. k
