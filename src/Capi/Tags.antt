-- ===== src/Capi/Tags.antt =====
-- The type tags of the registry of capi/capi.go, and the objects behind them.
pub mod Lifecycle
pub mod Charts
use helm_c_sdk.Base.{
  ℕ, ◌+◌, ◌%◌, ◌≡◌, refl, Bool, Option, none, some, List, [], ◌∷◌, arith, ◌==◌, if◌then◌else◌,
  Option-cases, Bool-cases, inl, inr,
}
use helm_c_sdk.Base.Assoc.{Assoc, lookup, insert, erase}
use helm_c_sdk.Result.{Result, ok, err, check}
use helm_c_sdk.Go.{returns, Go, lift}
use helm_c_sdk.Handles.{
  HandleType, Entry, Registry, type_chart, type_config, type_registry_client, type_context, put,
  get, free, free_typed, new_registry,
}
use helm_c_sdk.Sdk.Structs.{Types}
use helm_c_sdk.Process.{Object, Process}
use helm_c_sdk.Process.Respects.{Frame, Respects, returned, lifted, bound, branched}
use helm_c_sdk.Process.Respects.Wide.{WideFrame}
use helm_c_sdk.Capi.Registry.{
  registry_get, registry_put, registry_free, registry_free_typed, some_object,
  registry_client_or_nil, chart_or_nil, config_and_optional_chart,
}

-- The tag that an object is put in with.
abbrev pub tag_of : {t : Types} → Object t → HandleType
tag_of (Object.chart c) = type_chart
tag_of (Object.config ref) = type_config
tag_of (Object.client c) = type_registry_client
tag_of (Object.context c) = type_context

abbrev pub AllTagged : {t : Types} → Assoc (Entry (Object t)) → Type 0
AllTagged [] = Unit {0}
AllTagged ((id, e) ∷ m) = (e.typ ≡ tag_of e.obj) × AllTagged m

-- Every entry carries the tag of its object.
abbrev pub IsTagged : {t : Types} → Process t → Type 0
IsTagged p = AllTagged p.registry.entries

module _ {t : Types} where
  insert-AllTagged :
      (id : ℕ) (e : Entry (Object t)) (m : Assoc (Entry (Object t)))
      → e.typ ≡ tag_of e.obj
      → AllTagged m
      → AllTagged (insert id e m)
  insert-AllTagged id e [] h w = (h, tt)
  insert-AllTagged id e ((j, x) ∷ m) h w = ground (arith, insert-AllTagged id e m h w.1)

  erase-AllTagged : (id : ℕ) (m : Assoc (Entry (Object t))) → AllTagged m → AllTagged (erase id m)
  erase-AllTagged id [] w = tt
  erase-AllTagged id ((j, x) ∷ m) w = ground (arith, erase-AllTagged id m w.1)

  pub lookup-AllTagged :
      (id : ℕ) (e : Entry (Object t)) (m : Assoc (Entry (Object t)))
      → AllTagged m
      → lookup id m ≡ some e
      → e.typ ≡ tag_of e.obj
  lookup-AllTagged id e [] w h = cc
  lookup-AllTagged id e ((j, x) ∷ m) w h = ground (arith, lookup-AllTagged id e m w.1)

abbrev pub tagging : (t : Types) → WideFrame t
tagging t = record {
  frame = record {
    Rel = λ p q. IsTagged p → IsTagged q;
    here = λ p h. h;
    chain = λ p q s f g h. g (f h);
    outwards = λ p o h. h;
    allocated = λ p c h. h;
    recorded = λ p c h. h;
  };
  overwritten = λ p ref c o h. h;
  reconfigured = λ p ref c o h. h;
}

module _ {types : Types} where
  pub put-Respects :
      (obj : Object types) → Respects (tagging types).frame (registry_put (tag_of obj) obj)
  unfolding registry_put put
  put-Respects obj = record {
    at = λ p h.
        insert-AllTagged _ (record { typ = tag_of obj; obj = obj }) p.registry.entries refl h;
  }

  free-AllTagged :
      (id : ℕ) (r : Registry (Object types)) → AllTagged r.entries → AllTagged (free id r).1.entries
  unfolding free
  free-AllTagged id r w = elim (Option-cases (lookup id r.entries)) [
    | inl e ↦ rw (e, free) w
    | inr (x, e) ↦ rw (e, free) (erase-AllTagged id r.entries w)
  ]

  free_typed-AllTagged :
      (id : ℕ) (typ : HandleType) (r : Registry (Object types))
      → AllTagged r.entries
      → AllTagged (free_typed id typ r).1.entries
  unfolding free_typed
  free_typed-AllTagged id typ r w = elim (Option-cases (lookup id r.entries)) [
    | inl e ↦ rw (e, free_typed) w
    | inr (x, e) ↦ elim (Bool-cases (x.typ == typ)) [
      | inl same ↦ rw (e, free_typed, same) (erase-AllTagged id r.entries w)
      | inr other ↦ rw (e, free_typed, other) w
    ]
  ]

  pub free-Respects : (h : ℕ) → Respects (tagging types).frame (registry_free {t = types} h)
  unfolding registry_free
  free-Respects h = record {
    at = λ p w.
        (lifted (tagging types).frame (check (free h p.registry).0)).at
          (record p { registry = (free h p.registry).1 }) (free-AllTagged h p.registry w);
  }

  pub free_typed-Respects :
      (h : ℕ) (typ : HandleType)
      → Respects (tagging types).frame (registry_free_typed {t = types} h typ)
  unfolding registry_free_typed
  free_typed-Respects h typ = record {
    at = λ p w.
        (lifted (tagging types).frame (check (free_typed h typ p.registry).0)).at
          (record p { registry = (free_typed h typ p.registry).1 })
          (free_typed-AllTagged h typ p.registry w);
  }
