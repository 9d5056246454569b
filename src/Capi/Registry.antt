-- ===== src/Capi/Registry.antt =====
-- The one registry of capi/capi.go, as the shims use it: handles for objects, and the typed free of
-- capi/extra.go.
pub mod Frees
pub mod Frame
use helm_c_sdk.Base.{ℕ, Option, none, some, String, ◌==◌, if◌then◌else◌}
use helm_c_sdk.Errors.{Err}
use helm_c_sdk.Result.{check}
use helm_c_sdk.Go.{Outcome, returns, fails, Go, pure, lift, modify, ◌>>=◌, ◌>>◌}
use helm_c_sdk.Handles.{
  HandleType, type_chart, type_config, type_registry_client, put, get, free, free_typed, count,
}
use helm_c_sdk.Sdk.Structs.{Types}
use helm_c_sdk.Process.{Object, Process}
use helm_c_sdk.Capi.Boundary.{ErrorOut, Reply, status_result}

module _ {t : Types} where
  -- registry.Get
  unfoldable pub registry_get : ℕ → HandleType → Go (Process t) (Object t)
  registry_get h typ p = lift (get h typ p.registry) p

  -- registry.Put
  unfoldable pub registry_put : HandleType → Object t → Go (Process t) ℕ
  registry_put typ obj p =
      let (h, r) = put typ obj p.registry in (returns h, record p { registry = r })

  unfoldable pub registry_free : ℕ → Go (Process t) (Unit {0})
  registry_free h p = let (e, r) = free h p.registry in lift (check e) (record p { registry = r })

  unfoldable pub registry_free_typed : ℕ → HandleType → Go (Process t) (Unit {0})
  registry_free_typed h typ p =
      let (e, r) = free_typed h typ p.registry in lift (check e) (record p { registry = r })

  -- The body of freeTyped, with the optional hook.
  unfoldable pub free_body :
      ℕ → HandleType → Option (Object t → Go (Process t) (Unit {0})) → Go (Process t) (Unit {0})
  free_body h typ none = registry_free_typed h typ
  free_body h typ (some before) = do obj ← registry_get h typ; before obj; registry_free_typed h typ

  -- freeTyped
  unfoldable pub free_handle :
      ℕ
      → HandleType
      → ErrorOut
      → Option (Object t → Go (Process t) (Unit {0}))
      → Process t
      → Reply (Unit {0}) × Process t
  free_handle h typ error_out before = status_result error_out (free_body h typ before)

  -- helm_handle_free
  unfoldable pub helm_handle_free : ℕ → ErrorOut → Process t → Reply (Unit {0}) × Process t
  helm_handle_free h error_out = status_result error_out (registry_free h)

  -- helm_open_handles_count. The conversion to int64_t is not modelled.
  unfoldable pub helm_open_handles_count : Process t → ℕ
  helm_open_handles_count p = count p.registry

  -- helm_chart_free
  unfoldable pub helm_chart_free : ℕ → ErrorOut → Process t → Reply (Unit {0}) × Process t
  helm_chart_free h error_out = free_handle h type_chart error_out none

  -- helm_registry_client_free
  unfoldable pub helm_registry_client_free : ℕ → ErrorOut → Process t → Reply (Unit {0}) × Process t
  helm_registry_client_free h error_out = free_handle h type_registry_client error_out none

  unfoldable pub some_object : Go (Process t) (Object t) → Go (Process t) (Option (Object t))
  some_object m = do obj ← m; pure (some obj)

  -- registryClientOrNil
  unfoldable pub registry_client_or_nil : ℕ → Go (Process t) (Option (Object t))
  unfolding some_object
  registry_client_or_nil h =
      if h == 0 then pure none else some_object (registry_get h type_registry_client)

  unfoldable pub chart_or_nil : ℕ → Go (Process t) (Option (Object t))
  unfolding some_object
  chart_or_nil h = if h == 0 then pure none else some_object (registry_get h type_chart)

  -- configAndOptionalChart
  unfoldable pub config_and_optional_chart : ℕ → ℕ → Go (Process t) (Object t × Option (Object t))
  config_and_optional_chart cfg_h chart_h = do
    cfg_obj ← registry_get cfg_h type_config
    chart_obj ← chart_or_nil chart_h
    pure (cfg_obj, chart_obj)
