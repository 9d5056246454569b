-- ===== src/Capi/Tags/Lifecycle.antt =====
-- capi: making and freeing charts, configurations, contexts and registry clients keeps the tags.
use helm_c_sdk.Base.{
  ℕ, not, str_eq, if◌then◌else◌, Bool, true, false, Option, none, some, Option-cases, inl, inr,
}
use helm_c_sdk.Base.Assoc.{lookup}
use helm_c_sdk.Go.{Go, modify}
use helm_c_sdk.Handles.{HandleType, type_chart, type_config, type_context, type_registry_client}
use helm_c_sdk.Json.{Document}
use helm_c_sdk.Sdk.{Sdk}
use helm_c_sdk.Sdk.Structs.{Types}
use helm_c_sdk.Process.{Object, Process}
use helm_c_sdk.Process.Respects.{Respects, lifted, bound}
use helm_c_sdk.Wrapper.Clients.Frame.{client-Respects}
use helm_c_sdk.Wrapper.Config.{close, close_config}
use helm_c_sdk.Wrapper.Config.Frame.{new_config-Respects}
use helm_c_sdk.Capi.Boundary.{Slot, ErrorOut}
use helm_c_sdk.Capi.Boundary.Frame.{handle_result-Rel, status_result-Rel}
use helm_c_sdk.Capi.Registry.{
  free_body, free_handle, helm_handle_free, helm_chart_free, helm_registry_client_free,
}
use helm_c_sdk.Capi.Contexts.{
  alloc_context, cancel_object, helm_context_new, helm_context_free, helm_config_new,
  helm_config_free,
}
use helm_c_sdk.Capi.Registry.Frame.{get-Respects}
use helm_c_sdk.Capi.Contexts.Frame.{hook-Respects}
use helm_c_sdk.Capi.Registries.{helm_registry_client_new}
use helm_c_sdk.Capi.Tags.{IsTagged, tagging, put-Respects, free-Respects, free_typed-Respects}

module _ {t : Types} where
  plain_free-IsTagged :
      (h : ℕ) (typ : HandleType) (o : ErrorOut) (p : Process t)
      → IsTagged p
      → IsTagged (free_handle h typ o none p).1
  unfolding free_handle free_body
  plain_free-IsTagged h typ o p =
      status_result-Rel (tagging t).frame o _ p (free_typed-Respects h typ)

  hooked_free-IsTagged :
      (h : ℕ) (typ : HandleType) (o : ErrorOut) (f : Object t → Go (Process t) (Unit {0}))
      (p : Process t)
      → ((obj : Object t) → Respects (tagging t).frame (f obj))
      → IsTagged p
      → IsTagged (free_handle h typ o (some f) p).1
  unfolding free_handle free_body
  hooked_free-IsTagged h typ o f p k = status_result-Rel (tagging t).frame o _ p (
      bound (tagging t).frame _ _ (get-Respects (tagging t).frame h typ)
        λ obj. bound (tagging t).frame _ _ (k obj) λ done. free_typed-Respects h typ)

  pub helm_handle_free-IsTagged :
      (h : ℕ) (o : ErrorOut) (p : Process t) → IsTagged p → IsTagged (helm_handle_free h o p).1
  unfolding helm_handle_free
  helm_handle_free-IsTagged h o p = status_result-Rel (tagging t).frame o _ p (free-Respects h)

  pub helm_chart_free-IsTagged :
      (h : ℕ) (o : ErrorOut) (p : Process t) → IsTagged p → IsTagged (helm_chart_free h o p).1
  unfolding helm_chart_free
  helm_chart_free-IsTagged h o p = plain_free-IsTagged h type_chart o p

  pub helm_registry_client_free-IsTagged :
      (h : ℕ) (o : ErrorOut) (p : Process t)
      → IsTagged p
      → IsTagged (helm_registry_client_free h o p).1
  unfolding helm_registry_client_free
  helm_registry_client_free-IsTagged h o p = plain_free-IsTagged h type_registry_client o p

  allocated_context : Respects (tagging t).frame (alloc_context {t = t})
  unfolding alloc_context
  allocated_context = record { at = λ p w. w }

  pub helm_context_new-IsTagged :
      (s : Slot ℕ) (o : ErrorOut) (p : Process t) → IsTagged p → IsTagged (helm_context_new s o p).1
  unfolding helm_context_new
  helm_context_new-IsTagged s o p =
      handle_result-Rel (tagging t).frame s o _ p
        (bound (tagging t).frame _ _ allocated_context λ c. put-Respects (Object.context c))

  pub helm_context_free-IsTagged :
      (h : ℕ) (o : ErrorOut) (p : Process t) → IsTagged p → IsTagged (helm_context_free h o p).1
  unfolding helm_context_free
  helm_context_free-IsTagged h o p =
      hooked_free-IsTagged h type_context o cancel_object p (hook-Respects (tagging t).frame)

module _ (sdk : Sdk) where
  open sdk use {types}

  pub helm_config_new-IsTagged :
      (json : Option Document) (s : Slot ℕ) (o : ErrorOut) (p : Process types)
      → IsTagged p
      → IsTagged (helm_config_new sdk json s o p).1
  unfolding helm_config_new
  helm_config_new-IsTagged json s o p = handle_result-Rel (tagging types).frame s o _ p (
      bound (tagging types).frame _ _ (lifted (tagging types).frame _) λ opts.
        bound (tagging types).frame _ _ (new_config-Respects sdk (tagging types) opts)
          λ ref. put-Respects (Object.config ref))

  branch-IsTagged :
      (b : Bool) (q p : Process types) → IsTagged q → IsTagged p → IsTagged (if b then q else p)
  branch-IsTagged true q p v w = v
  branch-IsTagged false q p v w = w

  closed : (obj : Object types) (p : Process types) → IsTagged p → IsTagged (close_config sdk obj p)
  unfolding close_config close
  closed (Object.config ref) p w = elim (Option-cases (lookup ref p.configs)) [
    | inl e ↦ rw (e, close_config, close) w
    | inr (c, e) ↦
        rw (e, close_config, close) (branch-IsTagged (not (str_eq c.temp_kubeconfig "")) _ p w w)
  ]
  closed (Object.chart c) p w = w
  closed (Object.client c) p w = w
  closed (Object.context c) p w = w

  closes : (obj : Object types) → Respects (tagging types).frame (modify (close_config sdk obj))
  unfolding modify
  closes obj = record { at = λ p. closed obj p }

  pub helm_config_free-IsTagged :
      (h : ℕ) (o : ErrorOut) (p : Process types)
      → IsTagged p
      → IsTagged (helm_config_free sdk h o p).1
  unfolding helm_config_free
  helm_config_free-IsTagged h o p = hooked_free-IsTagged h type_config o _ p closes

  pub helm_registry_client_new-IsTagged :
      (json : Option Document) (s : Slot ℕ) (o : ErrorOut) (p : Process types)
      → IsTagged p
      → IsTagged (helm_registry_client_new sdk json s o p).1
  unfolding helm_registry_client_new
  helm_registry_client_new-IsTagged json s o p = handle_result-Rel (tagging types).frame s o _ p (
      bound (tagging types).frame _ _ (lifted (tagging types).frame _) λ opts.
        bound (tagging types).frame _ _ (client-Respects sdk (tagging types).frame opts)
          λ client. put-Respects (Object.client client))
