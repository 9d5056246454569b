-- ===== src/Process/Respects/Wide.antt =====
-- Code that acts on configurations too: a relation that holds across those changes as well.
use helm_c_sdk.Base.{ℕ, ◌≡◌, refl, ◌∙◌, Option, none, some}
use helm_c_sdk.Base.Assoc.{lookup, insert}
use helm_c_sdk.Go.{modify}
use helm_c_sdk.Sdk.Structs.{Types, Configuration, Action, Outside}
use helm_c_sdk.Process.{Config, Process}
use helm_c_sdk.Process.Heap.{act_on, act_at}
use helm_c_sdk.Process.Respects.{Frame, Respects}

pub record WideFrame (t : Types) : Type 1 where
  pub frame : Frame t
  pub open frame use *
  pub overwritten :
      (p : Process t) (ref : ℕ) (c : Configuration t) (o : Outside t)
      → frame.Rel p (record p { configurations = insert ref c p.configurations; outside = o })
  pub reconfigured :
      (p : Process t) (ref : ℕ) (c : Config) (o : Outside t)
      → frame.Rel p (record p { configs = insert ref c p.configs; outside = o })

module _ {types : Types} (F : WideFrame types) where
  acted_on :
      {A : Type 0} (ref : ℕ) (act : Action types A) (o : Option (Configuration types))
      (p : Process types)
      → F.Rel p (act_on ref act o p).1
  acted_on ref act none p = F.here p
  acted_on ref act (some c) p = F.overwritten p ref _ _

  pub acted : {A : Type 0} (ref : ℕ) (act : Action types A) → Respects F.frame (act_at ref act)
  unfolding act_at
  acted ref act = record { at = λ p. acted_on ref act (lookup ref p.configurations) p }

  pub rewrote :
      (ref : ℕ) (c : Configuration types)
      → Respects F.frame (modify (λ p. record p { configurations = insert ref c p.configurations }))
  unfolding modify
  rewrote ref c = record { at = λ p. F.overwritten p ref c p.outside }

-- The registry of handles stays as it is.
abbrev pub Untouched : {t : Types} → Process t → Process t → Type 0
Untouched p q = q.registry ≡ p.registry

abbrev pub untouched : (t : Types) → WideFrame t
untouched t = record {
  frame = record {
    Rel = Untouched;
    here = λ p. refl;
    chain = λ p q s h k. k ∙ h;
    outwards = λ p o. refl;
    allocated = λ p c. refl;
    recorded = λ p c. refl;
  };
  overwritten = λ p ref c o. refl;
  reconfigured = λ p ref c o. refl;
}
