-- ===== src/Capi/Registries.antt =====
-- capi/registry.go and the registry exports of capi/extra.go: OCI registries.
pub mod Frame
use helm_c_sdk.Base.{ℕ, Option, some, String, [], ◌∷◌}
use helm_c_sdk.Go.{Go, lift, ◌>>=◌, ◌>>◌}
use helm_c_sdk.Handles.{type_config, type_registry_client}
use helm_c_sdk.Json.{Json, Document}
use helm_c_sdk.Options.Client.{parse_registry_client_options, parse_login_options}
use helm_c_sdk.Options.Transfer.{parse_pull_options, parse_push_options}
use helm_c_sdk.Options.Show.{parse_show_options}
use helm_c_sdk.Sdk.{Sdk}
use helm_c_sdk.Process.{Object, Process}
use helm_c_sdk.Wrapper.Clients.{new_registry_client, pull_chart}
use helm_c_sdk.Wrapper.Clients.Remote.{
  registry_login, registry_logout, registry_tags, registry_resolve, push_chart,
}
use helm_c_sdk.Wrapper.Testing.{check_reachable, set_config_registry_client}
use helm_c_sdk.Wrapper.Show.{show_chart}
use helm_c_sdk.Capi.Boundary.{
  Slot, CString, ErrorOut, Reply, go_string, go_json, require_args, string_result, handle_result,
  status_result,
}
use helm_c_sdk.Capi.Registry.{registry_get, registry_put, registry_client_or_nil}
use helm_c_sdk.Capi.Actions.{JsonOut}

module _ (sdk : Sdk) where
  open sdk use {types}

  client_body : Option Document → Go (Process types) ℕ
  client_body json = do
    opts ← lift (parse_registry_client_options (go_json json))
    client ← new_registry_client sdk opts
    registry_put type_registry_client (Object.client client)

  -- helm_registry_client_new
  unfoldable pub helm_registry_client_new :
      Option Document → Slot ℕ → ErrorOut → Process types → Reply (Slot ℕ) × Process types
  unfolding client_body
  helm_registry_client_new json out error_out = handle_result out error_out (client_body json)

  login_body : ℕ → CString → CString → CString → Option Document → Go (Process types) (Unit {0})
  login_body h host username password json = do
    lift (require_args "host, username and password" (host ∷ username ∷ password ∷ []))
    obj ← registry_get h type_registry_client
    opts ← lift (parse_login_options (go_json json))
    registry_login sdk (some obj) (go_string host) (go_string username) (go_string password) opts

  -- helm_registry_login
  unfoldable pub helm_registry_login :
      ℕ
      → CString
      → CString
      → CString
      → Option Document
      → ErrorOut
      → Process types
      → Reply (Unit {0}) × Process types
  unfolding login_body
  helm_registry_login h host username password json error_out =
      status_result error_out (login_body h host username password json)

  logout_body : ℕ → CString → Go (Process types) (Unit {0})
  logout_body h host = do
    lift (require_args "host" (host ∷ []))
    obj ← registry_get h type_registry_client
    registry_logout sdk (some obj) (go_string host)

  -- helm_registry_logout
  unfoldable pub helm_registry_logout :
      ℕ → CString → ErrorOut → Process types → Reply (Unit {0}) × Process types
  unfolding logout_body
  helm_registry_logout h host error_out = status_result error_out (logout_body h host)

  chart_ref_body :
      {A : Type 0}
      → ℕ
      → CString
      → (Option (Object types) → String → Go (Process types) A)
      → Go (Process types) A
  chart_ref_body client_h chart_ref run = do
    lift (require_args "chart_ref" (chart_ref ∷ []))
    client_obj ← registry_client_or_nil client_h
    run client_obj (go_string chart_ref)

  -- chartRefClientResult
  unfoldable pub chart_ref_client_result :
      {A : Type 0}
      → ℕ
      → CString
      → Slot (Option A)
      → ErrorOut
      → (Option (Object types) → String → Go (Process types) A)
      → Process types
      → Reply (Slot (Option A)) × Process types
  unfolding chart_ref_body
  chart_ref_client_result client_h chart_ref out error_out run =
      string_result out error_out (chart_ref_body client_h chart_ref run)

  show_body : Option Document → Option (Object types) → String → Go (Process types) String
  show_body json client_obj ref = do
    opts ← lift (parse_show_options (go_json json))
    show_chart sdk client_obj ref opts

  -- helm_show
  unfoldable pub helm_show :
      ℕ
      → CString
      → Option Document
      → Slot CString
      → ErrorOut
      → Process types
      → Reply (Slot CString) × Process types
  unfolding show_body
  helm_show client_h chart_ref json out error_out =
      chart_ref_client_result client_h chart_ref out error_out (show_body json)

  pull_body : Option Document → Option (Object types) → String → Go (Process types) Json
  pull_body json client_obj ref = do
    opts ← lift (parse_pull_options (go_json json))
    pull_chart sdk client_obj ref opts

  -- helm_pull
  unfoldable pub helm_pull :
      ℕ
      → CString
      → Option Document
      → JsonOut
      → ErrorOut
      → Process types
      → Reply JsonOut × Process types
  unfolding pull_body
  helm_pull client_h chart_ref json out error_out =
      chart_ref_client_result client_h chart_ref out error_out (pull_body json)

  push_body : ℕ → CString → CString → Option Document → Go (Process types) Json
  push_body client_h chart_path remote json = do
    lift (require_args "chart_path and remote" (chart_path ∷ remote ∷ []))
    client_obj ← registry_client_or_nil client_h
    opts ← lift (parse_push_options (go_json json))
    push_chart sdk client_obj (go_string chart_path) (go_string remote) opts

  -- helm_push
  unfoldable pub helm_push :
      ℕ
      → CString
      → CString
      → Option Document
      → JsonOut
      → ErrorOut
      → Process types
      → Reply JsonOut × Process types
  unfolding push_body
  helm_push client_h chart_path remote json out error_out =
      string_result out error_out (push_body client_h chart_path remote json)

  ref_body :
      ℕ
      → CString
      → (Option (Object types) → String → Go (Process types) Json)
      → Go (Process types) Json
  ref_body client_h ref run = do
    lift (require_args "ref" (ref ∷ []))
    client_obj ← registry_get client_h type_registry_client
    run (some client_obj) (go_string ref)

  -- registryRefShim
  unfoldable pub registry_ref_shim :
      ℕ
      → CString
      → JsonOut
      → ErrorOut
      → (Option (Object types) → String → Go (Process types) Json)
      → Process types
      → Reply JsonOut × Process types
  unfolding ref_body
  registry_ref_shim client_h ref out error_out run =
      string_result out error_out (ref_body client_h ref run)

  -- helm_registry_tags
  unfoldable pub helm_registry_tags :
      ℕ → CString → JsonOut → ErrorOut → Process types → Reply JsonOut × Process types
  helm_registry_tags client_h ref out error_out =
      registry_ref_shim client_h ref out error_out (registry_tags sdk)

  -- helm_registry_resolve
  unfoldable pub helm_registry_resolve :
      ℕ → CString → JsonOut → ErrorOut → Process types → Reply JsonOut × Process types
  helm_registry_resolve client_h ref out error_out =
      registry_ref_shim client_h ref out error_out (registry_resolve sdk)

  bind_body : ℕ → ℕ → Go (Process types) (Unit {0})
  bind_body cfg_h client_h = do
    cfg_obj ← registry_get cfg_h type_config
    client_obj ← registry_client_or_nil client_h
    set_config_registry_client sdk (some cfg_obj) client_obj

  -- helm_config_set_registry_client
  unfoldable pub helm_config_set_registry_client :
      ℕ → ℕ → ErrorOut → Process types → Reply (Unit {0}) × Process types
  unfolding bind_body
  helm_config_set_registry_client cfg_h client_h error_out =
      status_result error_out (bind_body cfg_h client_h)

  reach_body : ℕ → Go (Process types) (Unit {0})
  reach_body cfg_h = do cfg_obj ← registry_get cfg_h type_config; check_reachable sdk (some cfg_obj)

  -- helm_config_check_reachable
  unfoldable pub helm_config_check_reachable :
      ℕ → ErrorOut → Process types → Reply (Unit {0}) × Process types
  unfolding reach_body
  helm_config_check_reachable cfg_h error_out = status_result error_out (reach_body cfg_h)
