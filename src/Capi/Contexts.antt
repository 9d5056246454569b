-- ===== src/Capi/Contexts.antt =====
-- capi/config.go: configurations and cancellation contexts behind handles.
pub mod Cancelling
pub mod Frame
pub mod Closing
use helm_c_sdk.Base.{ℕ, suc, Option, none, some, String, List, ◌∷◌, ◌==◌, if◌then◌else◌}
use helm_c_sdk.Go.{Outcome, returns, panics, Go, pure, lift, modify, ◌>>=◌, ◌>>◌}
use helm_c_sdk.Handles.{type_config, type_context}
use helm_c_sdk.Json.{Document}
use helm_c_sdk.Options.Config.{parse_config_options}
use helm_c_sdk.Sdk.{Sdk}
use helm_c_sdk.Sdk.Structs.{Types}
use helm_c_sdk.Process.{Object, Process}
use helm_c_sdk.Wrapper.Config.{new_config, close_config}
use helm_c_sdk.Capi.Boundary.{Slot, ErrorOut, Reply, go_json, handle_result, status_result}
use helm_c_sdk.Capi.Registry.{registry_get, registry_put, free_handle}

module _ {t : Types} where
  -- context.WithCancel of the background context, and the *ctxEntry around it
  unfoldable pub alloc_context : Go (Process t) ℕ
  alloc_context p = (returns p.next_ref, record p { next_ref = suc p.next_ref })

  -- cancel()
  unfoldable pub cancel : ℕ → Process t → Process t
  cancel c p = record p { outside = record p.outside { cancelled = c ∷ p.outside.cancelled } }

  -- obj.(*ctxEntry)
  unfoldable pub assert_context : Object t → Go (Process t) ℕ
  assert_context (Object.context c) p = (returns c, p)
  assert_context _ p = (panics "interface conversion: interface {} is not *main.ctxEntry", p)

  -- ctxEntryFor
  unfoldable pub ctx_entry_for : ℕ → Go (Process t) ℕ
  ctx_entry_for h = do obj ← registry_get h type_context; assert_context obj

  new_context : Go (Process t) ℕ
  new_context = do c ← alloc_context; registry_put type_context (Object.context c)

  -- helm_context_new
  unfoldable pub helm_context_new : Slot ℕ → ErrorOut → Process t → Reply (Slot ℕ) × Process t
  unfolding new_context
  helm_context_new out error_out = handle_result out error_out new_context

  cancel_body : ℕ → Go (Process t) (Unit {0})
  cancel_body h = do c ← ctx_entry_for h; modify (cancel c)

  -- helm_context_cancel
  unfoldable pub helm_context_cancel : ℕ → ErrorOut → Process t → Reply (Unit {0}) × Process t
  unfolding cancel_body
  helm_context_cancel h error_out = status_result error_out (cancel_body h)

  -- The hook of helm_context_free.
  unfoldable pub cancel_object : Object t → Go (Process t) (Unit {0})
  cancel_object obj = do c ← assert_context obj; modify (cancel c)

  -- helm_context_free
  unfoldable pub helm_context_free : ℕ → ErrorOut → Process t → Reply (Unit {0}) × Process t
  helm_context_free h error_out = free_handle h type_context error_out (some cancel_object)

  some_context : Go (Process t) ℕ → Go (Process t) (Option ℕ)
  some_context m = do c ← m; pure (some c)

  -- ctxOrBackground; `none` is the background context
  unfoldable pub ctx_or_background : ℕ → Go (Process t) (Option ℕ)
  unfolding some_context
  ctx_or_background h = if h == 0 then pure none else some_context (ctx_entry_for h)

module _ (sdk : Sdk) where
  open sdk use {types}

  new_config_handle : Option Document → Go (Process types) ℕ
  new_config_handle json = do
    opts ← lift (parse_config_options (go_json json))
    ref ← new_config sdk opts
    registry_put type_config (Object.config ref)

  -- helm_config_new
  unfoldable pub helm_config_new :
      Option Document → Slot ℕ → ErrorOut → Process types → Reply (Slot ℕ) × Process types
  unfolding new_config_handle
  helm_config_new json out error_out = handle_result out error_out (new_config_handle json)

  -- helm_config_free
  unfoldable pub helm_config_free : ℕ → ErrorOut → Process types → Reply (Unit {0}) × Process types
  helm_config_free h error_out =
      free_handle h type_config error_out (some (λ obj. modify (close_config sdk obj)))
