-- ===== src/Capi/System/Typing.antt =====
-- capi: what a handle's type tag promises, after any calls.
use helm_c_sdk.Base.{
  ℕ, ◌⊎◌, ◌≡◌, refl, sym, arith, ◌==◌, Option, none, some, List, Bool-cases, inl, inr,
}
use helm_c_sdk.Base.Assoc.{lookup}
use mathlib.Core.Path.{subst}
use helm_c_sdk.Errors.{Err}
use helm_c_sdk.Result.{Result, ok, err}
use helm_c_sdk.Go.{returns, fails, ◌>>=◌}
use helm_c_sdk.Handles.{
  HandleType, Entry, Registry, type_chart, type_config, type_registry_client, type_context, get,
  new_registry, err_invalid_handle, err_wrong_type,
}
use helm_c_sdk.Sdk.{Sdk}
use helm_c_sdk.Sdk.Structs.{Types}
use helm_c_sdk.Process.{Object, Process}
use helm_c_sdk.Wrapper.Config.{as_config}
use helm_c_sdk.Wrapper.Charts.{as_chart, as_registry_client}
use helm_c_sdk.Capi.Contexts.{assert_context, ctx_entry_for}
use helm_c_sdk.Capi.Registry.{registry_get}
use helm_c_sdk.Capi.System.{Request, serve_all}
use helm_c_sdk.Capi.System.Frame.{serve_all-IsTagged}
use helm_c_sdk.Capi.Tags.{IsTagged, tag_of, AllTagged, lookup-AllTagged}

module _ {t : Types} where
  found_tag :
      (h : ℕ) (typ : HandleType) (obj : Object t) (r : Registry (Object t))
      (o : Option (Entry (Object t)))
      → AllTagged r.entries
      → lookup h r.entries ≡ o
      → get h typ r ≡ ok obj
      → tag_of obj ≡ typ
  unfolding get
  found_tag h typ obj r none w e g =
      let gone : get h typ r ≡ err (err_invalid_handle h) = rw (e, get) refl in cc
  found_tag h typ obj r (some x) w e g = elim (Bool-cases (x.typ == typ)) [
    | inl same ↦
        let got : get h typ r ≡ ok x.obj = rw (e, get) (rw same refl) in
        let tag : x.typ ≡ tag_of x.obj = lookup-AllTagged h x r.entries w e in ground arith
    | inr other ↦
        let bad : get h typ r ≡ err (err_wrong_type h x.typ typ) = rw (e, get) (rw other refl) in cc
  ]

  assert_context-tag :
      (obj : Object t) (p : Process t)
      → tag_of obj ≡ type_context
      → (c : ℕ) × (assert_context obj p ≡ (returns c, p))
  unfolding assert_context
  assert_context-tag (Object.context c) p e = (c, refl)
  assert_context-tag (Object.chart c) p e = grind arith
  assert_context-tag (Object.client c) p e = grind arith
  assert_context-tag (Object.config c) p e = grind arith

  -- An object that Get finds has the tag it was asked for.
  found_or_refused :
      (h : ℕ) (typ : HandleType) (p : Process t) (C : Object t → Type 0)
      → IsTagged p
      → ((obj : Object t) → tag_of obj ≡ typ → C obj)
      → ((e : Err) × (get h typ p.registry ≡ err e))
        ⊎ ((obj : Object t) × (get h typ p.registry ≡ ok obj) × C obj)
  found_or_refused h typ p C w k = by_result (get h typ p.registry) refl
    where
      by_result :
          (r : Result (Object t))
          → get h typ p.registry ≡ r
          → ((e : Err) × (get h typ p.registry ≡ err e))
            ⊎ ((obj : Object t) × (get h typ p.registry ≡ ok obj) × C obj)
      by_result (err e) g = inl (e, g)
      by_result (ok obj) g =
          inr
            (obj, g, k obj (found_tag h typ obj p.registry (lookup h p.registry.entries) w refl g))

module _ (sdk : Sdk) where
  open sdk use {types, Chart, Client}

  as_config-tag :
      (obj : Object types)
      → tag_of obj ≡ type_config
      → (ref : ℕ) × (as_config sdk (some obj) ≡ ok ref)
  unfolding as_config
  as_config-tag (Object.config ref) e = (ref, refl)
  as_config-tag (Object.chart c) e = grind arith
  as_config-tag (Object.client c) e = grind arith
  as_config-tag (Object.context c) e = grind arith

  as_chart-tag :
      (obj : Object types)
      → tag_of obj ≡ type_chart
      → (c : Chart) × (as_chart sdk (some obj) ≡ ok c)
  unfolding as_chart
  as_chart-tag (Object.chart c) e = (c, refl)
  as_chart-tag (Object.config ref) e = grind arith
  as_chart-tag (Object.client c) e = grind arith
  as_chart-tag (Object.context c) e = grind arith

  as_client-tag :
      (obj : Object types)
      → tag_of obj ≡ type_registry_client
      → (c : Client) × (as_registry_client sdk (some obj) ≡ ok c)
  unfolding as_registry_client
  as_client-tag (Object.client c) e = (c, refl)
  as_client-tag (Object.chart c) e = grind arith
  as_client-tag (Object.config ref) e = grind arith
  as_client-tag (Object.context c) e = grind arith

  fresh-IsTagged :
      (rs : List (Request types)) (p : Process types)
      → p.registry ≡ new_registry
      → IsTagged (serve_all sdk rs p)
  fresh-IsTagged rs p e = serve_all-IsTagged sdk rs p (subst (λ r. AllTagged r.entries) (sym e) tt)

  -- After any calls of Request from an empty registry, with any changes of the world between them,
  -- for every handle: Get of a configuration, a chart or a registry client either refuses the handle, or
  -- returns an object that AsConfig, AsChart or AsRegistryClient accepts.
  pub casts_succeed :
      (rs : List (Request types)) (p : Process types) (h : ℕ)
      → p.registry ≡ new_registry
      → (((e : Err) × (get h type_config (serve_all sdk rs p).registry ≡ err e))
          ⊎ ((obj : Object types) × (get h type_config (serve_all sdk rs p).registry ≡ ok obj)
              × ((ref : ℕ) × (as_config sdk (some obj) ≡ ok ref))))
        × (((e : Err) × (get h type_chart (serve_all sdk rs p).registry ≡ err e))
            ⊎ ((obj : Object types) × (get h type_chart (serve_all sdk rs p).registry ≡ ok obj)
                × ((c : Chart) × (as_chart sdk (some obj) ≡ ok c))))
        × (((e : Err) × (get h type_registry_client (serve_all sdk rs p).registry ≡ err e))
            ⊎ ((obj : Object types) × (get h type_registry_client (serve_all sdk rs p).registry
                  ≡ ok obj)
                × ((c : Client) × (as_registry_client sdk (some obj) ≡ ok c))))
  casts_succeed rs p h e = (
    found_or_refused h type_config (serve_all sdk rs p) _ (fresh-IsTagged rs p e) as_config-tag,
    found_or_refused h type_chart (serve_all sdk rs p) _ (fresh-IsTagged rs p e) as_chart-tag,
    found_or_refused h type_registry_client (serve_all sdk rs p) _ (fresh-IsTagged rs p e)
        as_client-tag,
  )

  -- After any calls of Request from an empty registry, with any changes of the world between them,
  -- ctxEntryFor either fails and changes nothing, or returns a context and changes nothing: its type assertion
  -- never panics.
  pub assertion_never_panics :
      (rs : List (Request types)) (p : Process types) (h : ℕ)
      → p.registry ≡ new_registry
      → ((e : Err) × (ctx_entry_for h (serve_all sdk rs p) ≡ (fails e, serve_all sdk rs p)))
        ⊎ ((c : ℕ) × (ctx_entry_for h (serve_all sdk rs p) ≡ (returns c, serve_all sdk rs p)))
  unfolding ctx_entry_for ◌>>=◌ registry_get
  assertion_never_panics rs p h e =
      elim (found_or_refused h type_context (serve_all sdk rs p) _ (fresh-IsTagged rs p e)
        (λ obj. assert_context-tag obj (serve_all sdk rs p))) [
          | inl (failure, g) ↦ inl (failure, rw g refl)
          | inr (obj, g, c_a) ↦ inr (c_a.0, rw g c_a.1)
        ]
