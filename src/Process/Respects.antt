-- ===== src/Process/Respects.antt =====
-- Code that respects a relation between the states before and after it, and the rules for the code
-- that calls of the SDK and allocations make up.
pub mod Wide
use helm_c_sdk.Base.{ℕ, suc, ◌≡◌, refl, Bool, true, false, Option, none, some, if◌then◌else◌}
use helm_c_sdk.Base.Assoc.{lookup, insert}
use helm_c_sdk.Errors.{Code, Err}
use helm_c_sdk.Result.{Result, ok, err}
use helm_c_sdk.Go.{
  Outcome, returns, fails, panics, Go, pure, fail, lift, gets, modify, deferred, continue, ◌>>=◌,
  recode, with_error_code, attempt, attempt_of,
}
use helm_c_sdk.Sdk.Structs.{Types, Configuration, Outside}
use helm_c_sdk.Process.{Config, Process}
use helm_c_sdk.Process.Heap.{
  alloc_configuration, alloc_config, deref_configuration, deref_config, outer, at,
}

-- A preorder on states that holds across changes of the outside world and across allocations.
pub record Frame (t : Types) : Type 1 where
  pub Rel : Process t → Process t → Type 0
  pub here : (p : Process t) → Rel p p
  pub chain : (p q s : Process t) → Rel p q → Rel q s → Rel p s
  pub outwards : (p : Process t) (o : Outside t) → Rel p (record p { outside = o })
  pub allocated :
      (p : Process t) (c : Configuration t)
      → Rel p (record p {
        configurations = insert p.next_ref c p.configurations;
        next_ref = suc p.next_ref;
      })
  pub recorded :
      (p : Process t) (c : Config)
      → Rel p (record p { configs = insert p.next_ref c p.configs; next_ref = suc p.next_ref })

pub record Respects {t : Types} {A : Type 0} (F : Frame t) (m : Go (Process t) A) : Type 0 where
  pub at : (p : Process t) → F.Rel p (m p).1

module _ {types : Types} (F : Frame types) where
  pub returned : {A : Type 0} (a : A) → Respects F (pure a)
  unfolding pure
  returned a = record { at = λ p. F.here p }

  pub failed : {A : Type 0} (e : Err) → Respects {A = A} F (fail e)
  unfolding fail
  failed e = record { at = λ p. F.here p }

  pub lifted : {A : Type 0} (r : Result A) → Respects F (lift r)
  unfolding lift
  lifted (ok a) = record { at = λ p. F.here p }
  lifted (err e) = record { at = λ p. F.here p }

  pub looked : {A : Type 0} (f : Process types → A) → Respects F (gets f)
  unfolding gets
  looked f = record { at = λ p. F.here p }

  pub outside : {A : Type 0} (m : Go (Outside types) A) → Respects F (outer m)
  unfolding outer
  outside m = record { at = λ p. F.outwards p (m p.outside).1 }

  -- A change of the outside world.
  pub swept :
      (f : Outside types → Outside types)
      → Respects F (modify (λ p. record p { outside = f p.outside }))
  unfolding modify
  swept f = record { at = λ p. F.outwards p (f p.outside) }

  pub allocates : (c : Configuration types) → Respects F (alloc_configuration c)
  unfolding alloc_configuration
  allocates c = record { at = λ p. F.allocated p c }

  pub records : (c : Config) → Respects F (alloc_config c)
  unfolding alloc_config
  records c = record { at = λ p. F.recorded p c }

  read : {A : Type 0} (o : Option A) (p : Process types) → F.Rel p (at o p).1
  read none p = F.here p
  read (some a) p = F.here p

  pub derefs : (ref : ℕ) → Respects F (deref_configuration ref)
  unfolding deref_configuration
  derefs ref = record { at = λ p. read (lookup ref p.configurations) p }

  pub derefs_config : (ref : ℕ) → Respects F (deref_config ref)
  unfolding deref_config
  derefs_config ref = record { at = λ p. read (lookup ref p.configs) p }

  module _ {A : Type 0} (m : Go (Process types) A) where
    attempted : (r : Outcome A) (p q : Process types) → F.Rel p q → F.Rel p (attempt_of r q).1
    attempted (returns a) p q h = h
    attempted (fails e) p q h = h
    attempted (panics m) p q h = h

    pub tried : Respects F m → Respects F (attempt m)
    unfolding attempt
    tried k = record { at = λ p. attempted (m p).0 p (m p).1 (k.at p) }

    -- A deferred clean-up of the outside world.
    pub finished :
        (f : Outside types → Outside types)
        → Respects F m
        → Respects F (deferred m (λ p. record p { outside = f p.outside }))
    unfolding deferred
    finished f k = record {
      at = λ p. F.chain p (m p).1 _ (k.at p) (F.outwards (m p).1 (f (m p).1.outside));
    }

  pub recoded :
      {A : Type 0} (c : Code) (m : Go (Process types) A)
      → Respects F m
      → Respects F (with_error_code c m)
  unfolding with_error_code
  recoded c m k = record { at = λ p. k.at p }

  pub outside_or :
      {A : Type 0} (c : Code) (m : Go (Outside types) A) → Respects F (with_error_code c (outer m))
  outside_or c m = recoded c (outer m) (outside m)

  module _ {A B : Type 0} (m : Go (Process types) A) (f : A → Go (Process types) B) where
    continued :
        (r : Outcome A) (p q : Process types)
        → F.Rel p q
        → ((a : A) → Respects F (f a))
        → F.Rel p (continue r f q).1
    continued (returns a) p q h kf = F.chain p q (f a q).1 h ((kf a).at q)
    continued (fails e) p q h kf = h
    continued (panics m) p q h kf = h

    pub bound : Respects F m → ((a : A) → Respects F (f a)) → Respects F (m >>= f)
    unfolding ◌>>=◌
    bound km kf = record { at = λ p. continued (m p).0 p (m p).1 (km.at p) kf }

  pub branched :
      {A : Type 0} (b : Bool) (m k : Go (Process types) A)
      → Respects F m
      → Respects F k
      → Respects F (if b then m else k)
  branched true m k km kk = km
  branched false m k km kk = kk
