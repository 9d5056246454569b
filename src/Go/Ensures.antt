-- ===== src/Go/Ensures.antt =====
-- Postconditions: what holds of the value when a computation returns one.
use helm_c_sdk.Errors.{Err}
use helm_c_sdk.Go.{Outcome, returns, fails, panics, Go, pure, fail, continue, ◌>>=◌}

abbrev pub Holds : {A : Type 0} → (A → Type 0) → Outcome A → Type 0
Holds Q (returns a) = Q a
Holds Q (fails e) = Unit {0}
Holds Q (panics m) = Unit {0}

pub record Ensures {S A : Type 0} (Q : A → Type 0) (m : Go S A) : Type 0 where
  pub at : (s : S) → Holds Q (m s).0

holds-all : {A : Type 0} (Q : A → Type 0) (x : Outcome A) → ((a : A) → Q a) → Holds Q x
holds-all Q (returns a) q = q a
holds-all Q (fails e) q = tt
holds-all Q (panics m) q = tt

module _ {S : Type 0} where
  module _ {A : Type 0} (Q : A → Type 0) where
    pub Ensures-pure : (a : A) → Q a → Ensures {S = S} Q (pure a)
    unfolding pure
    Ensures-pure a q = record { at = λ s. q }

    pub Ensures-fail : (e : Err) → Ensures {S = S} Q (fail e)
    unfolding fail
    Ensures-fail e = record { at = λ s. tt }

  module _ {A B : Type 0} (R : B → Type 0) where
    continued :
        (f : A → Go S B) (Q : A → Type 0) (x : Outcome A × S)
        → ((a : A) → Q a → Ensures R (f a))
        → Holds Q x.0
        → Holds R (continue x.0 f x.1).0
    continued f Q (returns a, s) kf q = (kf a q).at s
    continued f Q (fails e, s) kf q = tt
    continued f Q (panics m, s) kf q = tt

    pub Ensures-bind :
        (Q : A → Type 0) (m : Go S A) (f : A → Go S B)
        → Ensures Q m
        → ((a : A) → Q a → Ensures R (f a))
        → Ensures R (m >>= f)
    unfolding ◌>>=◌
    Ensures-bind Q m f km kf = record { at = λ s. continued f Q (m s) kf (km.at s) }

    -- Nothing need be known of the first value.
    pub Ensures-then :
        (m : Go S A) (f : A → Go S B) → ((a : A) → Ensures R (f a)) → Ensures R (m >>= f)
    unfolding ◌>>=◌
    Ensures-then m f kf = record {
      at = λ s.
          continued f (λ a. Unit {0}) (m s) (λ a q. kf a)
            (holds-all (λ a. Unit {0}) (m s).0 (λ a. tt));
    }
