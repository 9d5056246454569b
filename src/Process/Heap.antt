-- ===== src/Process/Heap.antt =====
-- Reading, writing and allocating behind pointers, and calls into the SDK.
use helm_c_sdk.Base.{ℕ, suc, Option-cases, inl, inr, ◌≡◌, ◌≢◌, Option, none, some, arith}
use helm_c_sdk.Base.Assoc.{lookup, insert, lookup-insert}
use helm_c_sdk.Go.{returns, panics, Go}
use helm_c_sdk.Sdk.Structs.{Types, Configuration, Action, Outside}
use helm_c_sdk.Process.{Config, Process}

module _ {t : Types} where
  -- &Configuration{...}
  unfoldable pub alloc_configuration : Configuration t → Go (Process t) ℕ
  alloc_configuration c p = (
    returns p.next_ref,
    record p { configurations = insert p.next_ref c p.configurations; next_ref = suc p.next_ref },
  )

  -- &Config{...}
  unfoldable pub alloc_config : Config → Go (Process t) ℕ
  alloc_config c p = (
    returns p.next_ref,
    record p { configs = insert p.next_ref c p.configs; next_ref = suc p.next_ref },
  )

  abbrev pub at : {A : Type 0} → Option A → Go (Process t) A
  at none p = (panics "invalid memory address or nil pointer dereference", p)
  at (some a) p = (returns a, p)

  unfoldable pub deref_configuration : ℕ → Go (Process t) (Configuration t)
  deref_configuration ref p = at (lookup ref p.configurations) p

  unfoldable pub deref_config : ℕ → Go (Process t) Config
  deref_config ref p = at (lookup ref p.configs) p

  -- A call that touches the outside world alone.
  unfoldable pub outer : {A : Type 0} → Go (Outside t) A → Go (Process t) A
  outer m p = let (r, o) = m p.outside in (r, record p { outside = o })

  -- A call of a method of an action, on the configuration behind its pointer.
  abbrev pub act_on : {A : Type 0} → ℕ → Action t A → Option (Configuration t) → Go (Process t) A
  act_on ref act none p = (panics "invalid memory address or nil pointer dereference", p)
  act_on ref act (some c) p =
      let (r, c', o) = act c p.outside in
      (r, record p { configurations = insert ref c' p.configurations; outside = o })

  unfoldable pub act_at : {A : Type 0} → ℕ → Action t A → Go (Process t) A
  act_at ref act p = act_on ref act (lookup ref p.configurations) p

  -- An action leaves every configuration but its own as it was.
  pub act_at-elsewhere :
      {A : Type 0} (ref other : ℕ) (act : Action t A) (p : Process t)
      → ref ≢ other
      → lookup other (act_at ref act p).1.configurations ≡ lookup other p.configurations
  unfolding act_at
  act_at-elsewhere ref other act p h = elim (Option-cases (lookup ref p.configurations)) [
    | inl e ↦ rw (e, act_at)
    | inr (c, e) ↦ rw (e, act_at) (rw lookup-insert (ground arith))
  ]
