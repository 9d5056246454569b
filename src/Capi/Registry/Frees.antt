-- ===== src/Capi/Registry/Frees.antt =====
-- capi: what freeing a handle does.
use helm_c_sdk.Base.{
  ℕ, ◌+◌, ◌<◌, ◌≡◌, refl, ◌∙◌, ap, ◌⊎◌, inl, inr, Option, none, some, List, arith, ◌==◌,
  Option-cases, Bool-cases,
}
use mathlib.Core.Path.{subst}
use helm_c_sdk.Base.Assoc.{lookup, erase}
use helm_c_sdk.Base.Int.{pos}
use helm_c_sdk.Errors.{
  Code, Err, to_int32, from_error, new_error, code_invalid_handle, code_wrong_handle_type,
}
use helm_c_sdk.Result.{ok, err}
use helm_c_sdk.Go.{Outcome, returns, fails, Go, lift}
use helm_c_sdk.Go.Laws.{bind-returns, bind-fails}
use helm_c_sdk.Handles.{
  HandleType, Registry, Call, u64_mod, get, free_typed, run, puts_in, err_invalid_handle,
  err_wrong_type,
}
use helm_c_sdk.Handles.Invariant.{Inv}
use helm_c_sdk.Handles.Lifetime.{IsDead, freed-IsDead}
use helm_c_sdk.Sdk.Structs.{Types}
use helm_c_sdk.Process.{Object, Process}
use helm_c_sdk.Capi.Boundary.{ErrorOut, clear_error_out, failure, success, status_result}
use helm_c_sdk.Capi.Registry.{registry_get, registry_free_typed, free_body, free_handle}

-- FreeTyped and Get agree on which handles there are of a type.
get-free_typed :
    {A : Type 0} (h : ℕ) (typ : HandleType) (r : Registry A)
    → ((e : Err) × (get h typ r ≡ err e) × (free_typed h typ r ≡ (some e, r)))
      ⊎ ((obj : A) × (get h typ r ≡ ok obj)
          × (free_typed h typ r ≡ (none, record r { entries = erase h r.entries })))
unfolding get free_typed
get-free_typed h typ r = elim (Option-cases (lookup h r.entries)) [
  | inl gone ↦ inl (err_invalid_handle h, rw (gone, get) refl, rw (gone, free_typed) refl)
  | inr (x, e) ↦ elim (Bool-cases (x.typ == typ)) [
    | inl same ↦ inr (x.obj, rw (e, get) (rw same refl), rw (e, free_typed) (rw same refl))
    | inr other ↦ inl (
      err_wrong_type h x.typ typ,
      rw (e, get) (rw other refl),
      rw (e, free_typed) (rw other refl),
    )
  ]
]

-- The two ways that a call fails: the handle is dead, or it holds an object of another type.
abbrev pub IsHandleError : Code → Type 0
IsHandleError c = (c ≡ code_invalid_handle) ⊎ (c ≡ code_wrong_handle_type)

pub get_error_code :
    {A : Type 0} (h : ℕ) (typ : HandleType) (r : Registry A) (e : Err)
    → get h typ r ≡ err e
    → IsHandleError (from_error (some e))
unfolding get from_error err_invalid_handle err_wrong_type new_error
get_error_code h typ r e refused = ground arith

module _ {t : Types} (h : ℕ) (typ : HandleType) (p : Process t) where
  pub registry_get-ok :
      (obj : Object t) → get h typ p.registry ≡ ok obj → registry_get h typ p ≡ (returns obj, p)
  unfolding registry_get lift
  registry_get-ok obj e = rw e refl

  pub registry_get-err :
      (e : Err) → get h typ p.registry ≡ err e → registry_get h typ p ≡ (fails e, p)
  unfolding registry_get lift
  registry_get-err x e = rw e refl

  free_typed-err :
      (e : Err)
      → free_typed h typ p.registry ≡ (some e, p.registry)
      → registry_free_typed h typ p ≡ (fails e, p)
  unfolding registry_free_typed lift
  free_typed-err x e = rw e refl

  free_typed-ok :
      (r : Registry (Object t))
      → free_typed h typ p.registry ≡ (none, r)
      → registry_free_typed h typ p ≡ (returns tt, record p { registry = r })
  unfolding registry_free_typed lift
  free_typed-ok r e = rw e refl

  body-err :
      (before : Option (Object t → Go (Process t) (Unit {0}))) (e : Err)
      → get h typ p.registry ≡ err e
      → free_body h typ before p ≡ (fails e, p)
  unfolding free_body
  body-err none e refused = elim (get-free_typed h typ p.registry) [
    | inl (x, g, f) ↦ free_typed-err e (f ∙ ground (arith, g, refused))
    | inr (obj, g, f) ↦ cc (g, refused)
  ]
  body-err (some before) e refused = bind-fails _ _ p p e (registry_get-err e refused)

-- A typed free of a handle that is dead, or that holds an object of another type, fails with what Get
-- says, before any clean-up runs: the handle and everything else stay as they are.
pub free_handle_refuses :
    {t : Types} (h : ℕ) (typ : HandleType) (o : ErrorOut)
    (before : Option (Object t → Go (Process t) (Unit {0}))) (p : Process t) (e : Err)
    → get h typ p.registry ≡ err e
    → (free_handle h typ o before p ≡ (failure tt (clear_error_out o) e, p))
      × IsHandleError (from_error (some e))
unfolding free_handle status_result
free_handle_refuses h typ o before p e refused =
    (rw (body-err h typ p before e refused) refl, get_error_code h typ p.registry e refused)

-- The clean-up of the object, if there is one.
unfoldable pub hook_run :
    {t : Types}
    → Option (Object t → Go (Process t) (Unit {0}))
    → Object t
    → Process t
    → Outcome (Unit {0}) × Process t
hook_run none obj p = (returns tt, p)
hook_run (some before) obj p = before obj p

-- The registry once the handle is gone.
abbrev pub without : {A : Type 0} → ℕ → Registry A → Registry A
without h r = record r { entries = erase h r.entries }

erased :
    {t : Types} (h : ℕ) (typ : HandleType) (p q : Process t) (obj : Object t)
    → q.registry ≡ p.registry
    → get h typ p.registry ≡ ok obj
    → free_typed h typ q.registry ≡ (none, without h p.registry)
erased h typ p q obj same held = elim (get-free_typed h typ p.registry) [
  | inl (x, g, f) ↦ cc (g, held)
  | inr (o, g, f) ↦ rw same f
]

module _ {t : Types} (h : ℕ) (typ : HandleType) (p q : Process t) where
  body-ok :
      (before : Option (Object t → Go (Process t) (Unit {0}))) (obj : Object t)
      → get h typ p.registry ≡ ok obj
      → hook_run before obj p ≡ (returns tt, q)
      → q.registry ≡ p.registry
      → free_body h typ before p ≡ (returns tt, record q { registry = without h p.registry })
  unfolding free_body hook_run
  body-ok none obj held hook same =
      subst
        (λ x. free_body h typ none p ≡ (returns tt, record x { registry = without h p.registry }))
        (ap (λ x. x.1) hook)
        (free_typed-ok h typ p (without h p.registry) (erased h typ p p obj refl held))
  body-ok (some before) obj held hook same =
      bind-returns _ _ p p obj (registry_get-ok h typ p obj held)
      ∙ (bind-returns _ _ p q tt hook
          ∙ free_typed-ok h typ q (without h p.registry) (erased h typ p q obj same held))

  pub free_handle-ok :
      (o : ErrorOut) (before : Option (Object t → Go (Process t) (Unit {0}))) (obj : Object t)
      → get h typ p.registry ≡ ok obj
      → hook_run before obj p ≡ (returns tt, q)
      → q.registry ≡ p.registry
      → free_handle h typ o before p
        ≡ (success tt (clear_error_out o), record q { registry = without h p.registry })
  unfolding free_handle status_result
  free_handle-ok o before obj held hook same = rw (body-ok before obj held hook same) refl

-- A typed free of a live handle succeeds, runs the clean-up of its object first, and the handle is dead
-- for good: after any further calls on the registry, every use of it is refused as invalid. The
-- clean-up succeeds and leaves the registry alone; the registry satisfies its invariant, and fewer
-- than 2 ^ 64 handles are issued in all.
pub free_handle_kills :
    {t : Types} (h : ℕ) (typ : HandleType) (p q : Process t) (o : ErrorOut)
    (before : Option (Object t → Go (Process t) (Unit {0}))) (obj : Object t)
    (cs : List (Call (Object t)))
    → get h typ p.registry ≡ ok obj
    → hook_run before obj p ≡ (returns tt, q)
    → q.registry ≡ p.registry
    → Inv p.registry
    → p.registry.next_id + puts_in cs < u64_mod
    → let (r, p') = free_handle h typ o before p in
      (r.code ≡ pos 0)
      × (p' ≡ record q { registry = without h p.registry })
      × IsDead h (run cs p'.registry)
unfolding success to_int32
free_handle_kills h typ p q o before obj cs held hook same v bound =
    rw (free_handle-ok h typ p q o before obj held hook same) (
      refl,
      refl,
      freed-IsDead h typ p.registry (without h p.registry) cs v bound
          (inr (erased h typ p p obj refl held)),
    )
