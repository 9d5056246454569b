-- ===== src/Go/Laws.antt =====
-- Equations for runs of Go code whose parts are known.
use helm_c_sdk.Base.{◌≡◌, refl, ◌⊎◌, inl, inr, String}
use helm_c_sdk.Errors.{Err}
use helm_c_sdk.Go.{Outcome, returns, fails, panics, Go, ◌>>=◌}

module _ {S A B : Type 0} (m : Go S A) (f : A → Go S B) (s s' : S) where
  pub bind-returns : (a : A) → m s ≡ (returns a, s') → (m >>= f) s ≡ f a s'
  unfolding ◌>>=◌
  bind-returns a e = rw (e, ◌>>=◌)

  pub bind-fails : (e : Err) → m s ≡ (fails e, s') → (m >>= f) s ≡ (fails e, s')
  unfolding ◌>>=◌
  bind-fails x e = rw (e, ◌>>=◌)

-- A computation is replaced by one that ends the same way.
pub bind-same :
    {S A B : Type 0} (m n : Go S A) (f : A → Go S B) (s s' : S)
    → m s ≡ n s'
    → (m >>= f) s ≡ (n >>= f) s'
unfolding ◌>>=◌
bind-same m n f s s' e = rw e refl

pub Outcome-cases :
    {A : Type 0} (r : Outcome A)
    → ((a : A) × (r ≡ returns a)) ⊎ (((e : Err) × (r ≡ fails e)) ⊎ ((m : String) × (r ≡ panics m)))
Outcome-cases (returns a) = inl (a, refl)
Outcome-cases (fails e) = inr (inl (e, refl))
Outcome-cases (panics m) = inr (inr (m, refl))
