-- ===== src/Process/Frame.antt =====
-- What a piece of code leaves alone: one *action.Configuration that is there when it starts.
pub mod Sparing
use helm_c_sdk.Base.{
  ℕ, zero, suc, String, ◌≡◌, refl, ◌∙◌, ◌≢◌, ◌<◌, ◌≤◌, Bool, true, false, Option, none, some, arith,
  ◌==◌, if◌then◌else◌,
}
use helm_c_sdk.Base.Assoc.{lookup, insert, lookup-insert}
use helm_c_sdk.Errors.{Code, Err, coded}
use helm_c_sdk.Result.{Result, ok, err}
use helm_c_sdk.Go.{
  Outcome, returns, fails, panics, Go, pure, fail, lift, gets, continue, ◌>>=◌, recode,
  with_error_code, attempt, attempt_of, modify, deferred,
}
use helm_c_sdk.Sdk.Structs.{Types, Configuration, Action, Outside}
use helm_c_sdk.Process.{Config, Process}
use helm_c_sdk.Process.Heap.{
  alloc_configuration, alloc_config, deref_configuration, deref_config, outer, act_at,
  act_at-elsewhere, at,
}

-- The property of the value, where there is one.
abbrev pub Post : {A : Type 0} → (A → Type 0) → Outcome A → Type 0
Post Q (returns a) = Q a
Post Q (fails e) = Unit {0}
Post Q (panics m) = Unit {0}

abbrev pub Any : {A : Type 0} → A → Type 0
Any a = Unit {0}

-- The run from `p` keeps the cell `ref`, and a value that it returns satisfies `Q`.
abbrev pub SparesAt :
    {t : Types} {A : Type 0} → ℕ → (A → Type 0) → Process t → Outcome A × Process t → Type 0
SparesAt ref Q p x =
    (lookup ref x.1.configurations ≡ lookup ref p.configurations)
    × (ref < x.1.next_ref)
    × Post Q x.0

pub record Spares {t : Types} {A : Type 0} (ref : ℕ) (Q : A → Type 0) (m : Go (Process t) A)
    : Type 0 where
  pub at : (p : Process t) → ref < p.next_ref → SparesAt ref Q p (m p)

Post-all : {A : Type 0} (Q : A → Type 0) (x : Outcome A) → ((a : A) → Q a) → Post Q x
Post-all Q (returns a) q = q a
Post-all Q (fails e) q = tt
Post-all Q (panics m) q = tt

weakened : {A : Type 0} (Q : A → Type 0) (x : Outcome A) → Post Q x → Post Any x
weakened Q (returns a) q = tt
weakened Q (fails e) q = tt
weakened Q (panics m) q = tt

module _ {t : Types} (ref : ℕ) where
  module _ {A : Type 0} (Q : A → Type 0) where
    pub Spares-pure : (a : A) → Q a → Spares {t = t} ref Q (pure a)
    unfolding pure
    Spares-pure a q = record { at = λ p h. (refl, h, q) }

    pub Spares-fail : (e : Err) → Spares {t = t} ref Q (fail e)
    unfolding fail
    Spares-fail e = record { at = λ p h. (refl, h, tt) }

    pub Spares-lift : (r : Result A) → ((a : A) → Q a) → Spares {t = t} ref Q (lift r)
    unfolding lift
    Spares-lift (ok a) q = record { at = λ p h. (refl, h, q a) }
    Spares-lift (err e) q = record { at = λ p h. (refl, h, tt) }

    pub Spares-lift_ok : (r : Result A) → ((a : A) → r ≡ ok a → Q a) → Spares {t = t} ref Q (lift r)
    unfolding lift
    Spares-lift_ok (ok a) q = record { at = λ p h. (refl, h, q a refl) }
    Spares-lift_ok (err e) q = record { at = λ p h. (refl, h, tt) }

    attempted :
        (x : Outcome A × Process t) (p : Process t)
        → SparesAt ref Q p x
        → SparesAt ref Any p (attempt_of x.0 x.1)
    attempted (returns a, s) p (same, h, q) = (same, h, tt)
    attempted (fails e, s) p (same, h, q) = (same, h, tt)
    attempted (panics m, s) p (same, h, q) = (same, h, tt)

    pub Spares-Any : (m : Go (Process t) A) → Spares ref Q m → Spares ref Any m
    Spares-Any m k = record {
      at = λ p h. let (same, next, q) = k.at p h in (same, next, weakened Q (m p).0 q);
    }

    pub Spares-gets : (f : Process t → A) → ((a : A) → Q a) → Spares {t = t} ref Q (gets f)
    unfolding gets
    Spares-gets f q = record { at = λ p h. (refl, h, q (f p)) }

    pub Spares-attempt : (m : Go (Process t) A) → Spares ref Q m → Spares ref Any (attempt m)
    unfolding attempt
    Spares-attempt m k = record { at = λ p h. attempted (m p) p (k.at p h) }

    pub Spares-outer : (m : Go (Outside t) A) → ((a : A) → Q a) → Spares {t = t} ref Q (outer m)
    unfolding outer
    Spares-outer m q = record { at = λ p h. (refl, h, Post-all Q (m p.outside).0 q) }

    -- An action on another configuration.
    pub Spares-act_at :
        (other : ℕ) (act : Action t A)
        → other ≢ ref
        → ((a : A) → Q a)
        → Spares {t = t} ref Q (act_at other act)
    unfolding act_at
    Spares-act_at other act ne q = record {
      at = λ p h.
          (act_at-elsewhere other ref act p ne, next p h, Post-all Q (act_at other act p).0 q);
    }
      where
        next : (p : Process t) → ref < p.next_ref → ref < (act_at other act p).1.next_ref
        next p h = ground arith

    recoded :
        (c : Code) (x : Outcome A × Process t) (p : Process t)
        → SparesAt ref Q p x
        → SparesAt ref Q p (recode c x.0, x.1)
    recoded c (returns a, s) p h = h
    recoded c (fails e, s) p h = h
    recoded c (panics m, s) p h = h

    pub Spares-with_error_code :
        (c : Code) (m : Go (Process t) A) → Spares ref Q m → Spares ref Q (with_error_code c m)
    unfolding with_error_code
    Spares-with_error_code c m k = record { at = λ p h. recoded c (m p) p (k.at p h) }

  read_at :
      {A : Type 0} (o : Option A) (p : Process t) → ref < p.next_ref → SparesAt ref Any p (at o p)
  read_at none p h = (refl, h, tt)
  read_at (some a) p h = (refl, h, tt)

  -- The value of a fresh allocation lies past every cell that was there.
  pub Spares-alloc :
      (c : Configuration t) → Spares {t = t} ref (λ a. a ≢ ref) (alloc_configuration c)
  unfolding alloc_configuration
  Spares-alloc c = record {
    at = λ p h. (rw lookup-insert (ground arith), omega arith, omega arith);
  }

  module _ {A B : Type 0} (Q : A → Type 0) (R : B → Type 0) where
    continued :
        (f : A → Go (Process t) B) (p : Process t) (x : Outcome A × Process t)
        → ((a : A) → Q a → Spares ref R (f a))
        → SparesAt ref Q p x
        → SparesAt ref R p (continue x.0 f x.1)
    continued f p (returns a, s) kf (same, h, q) =
        let (same', h', r) = (kf a q).at s h in (same' ∙ same, h', r)
    continued f p (fails e, s) kf (same, h, q) = (same, h, tt)
    continued f p (panics m, s) kf (same, h, q) = (same, h, tt)

    pub Spares-bind :
        (m : Go (Process t) A) (f : A → Go (Process t) B)
        → Spares ref Q m
        → ((a : A) → Q a → Spares ref R (f a))
        → Spares ref R (m >>= f)
    unfolding ◌>>=◌
    Spares-bind m f km kf = record { at = λ p h. continued f p (m p) kf (km.at p h) }

  pub Spares-modify :
      (f : Process t → Process t)
      → ((p : Process t) → (f p).configurations ≡ p.configurations)
      → ((p : Process t) → (f p).next_ref ≡ p.next_ref)
      → Spares ref Any (modify f)
  unfolding modify
  Spares-modify f same next = record { at = λ p h. (rw same, rw next h, tt) }

  pub Spares-deref_configuration : (cfg : ℕ) → Spares {t = t} ref Any (deref_configuration cfg)
  unfolding deref_configuration
  Spares-deref_configuration cfg = record { at = λ p h. read_at (lookup cfg p.configurations) p h }

  pub Spares-deref_config : (cfg : ℕ) → Spares {t = t} ref Any (deref_config cfg)
  unfolding deref_config
  Spares-deref_config cfg = record { at = λ p h. read_at (lookup cfg p.configs) p h }

  pub Spares-alloc_config : (c : Config) → Spares {t = t} ref Any (alloc_config c)
  unfolding alloc_config
  Spares-alloc_config c = record { at = λ p h. (refl, omega arith, tt) }

  -- Nothing need be known of the first value.
  pub Spares-then :
      {A B : Type 0} (R : B → Type 0) (m : Go (Process t) A) (f : A → Go (Process t) B)
      → Spares ref Any m
      → ((a : A) → Spares ref R (f a))
      → Spares ref R (m >>= f)
  Spares-then R m f km kf = Spares-bind Any R m f km (λ a _. kf a)

  pub Spares-if :
      {A : Type 0} (Q : A → Type 0) (b : Bool) (m k : Go (Process t) A)
      → Spares ref Q m
      → Spares ref Q k
      → Spares ref Q (if b then m else k)
  Spares-if Q true m k km kk = km
  Spares-if Q false m k km kk = kk

  -- A clean-up that touches the outside world alone.
  pub Spares-deferred :
      {A : Type 0} (m : Go (Process t) A) (cleanup : Outside t → Outside t)
      → Spares ref Any m
      → Spares ref Any (deferred m (λ p. record p { outside = cleanup p.outside }))
  unfolding deferred
  Spares-deferred m cleanup k = record { at = λ p h. k.at p h }
