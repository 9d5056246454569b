-- ===== src/Capi/Actions.antt =====
-- capi/actions.go: install, upgrade and the release actions.
pub mod Guards
pub mod Frame
pub mod Inspect
use helm_c_sdk.Base.{ℕ, Option, none, some, String, List, [], ◌∷◌}
use helm_c_sdk.Go.{Go, pure, lift, ◌>>=◌, ◌>>◌}
use helm_c_sdk.Handles.{type_config}
use helm_c_sdk.Json.{Json, Document}
use helm_c_sdk.Options.Install.{parse_install_options}
use helm_c_sdk.Options.Upgrade.{parse_upgrade_options}
use helm_c_sdk.Options.Listing.{parse_list_options}
use helm_c_sdk.Options.Release.{
  parse_uninstall_options, parse_rollback_options, parse_status_options, parse_history_options,
}
use helm_c_sdk.Sdk.{Sdk}
use helm_c_sdk.Process.{Object, Process}
use helm_c_sdk.Wrapper.Install.{install_release}
use helm_c_sdk.Wrapper.Upgrade.{upgrade_release}
use helm_c_sdk.Wrapper.Releases.{
  uninstall_release, rollback_release, list_releases, status_release, history_release,
}
use helm_c_sdk.Capi.Boundary.{
  Slot, CString, ErrorOut, Reply, go_string, go_json, require_args, string_result, named_result,
  status_result,
}
use helm_c_sdk.Capi.Registry.{registry_get, config_and_optional_chart}
use helm_c_sdk.Capi.Contexts.{ctx_or_background}

-- `char **out` of a result in JSON
abbrev pub JsonOut : Type 0
JsonOut = Slot (Option Json)

-- chartShimArgs
pub record ChartShimArgs : Type 0 where
  pub cfg_h : ℕ
  pub ctx_h : ℕ
  pub chart_h : ℕ
  pub chart_ref : CString
  pub name : CString
  pub values_json : Option Document
  pub opts_json : Option Document
  pub out : JsonOut
  pub error_out : ErrorOut

-- releaseShimArgs
pub record ReleaseShimArgs : Type 0 where
  pub cfg_h : ℕ
  pub name : CString
  pub opts_json : Option Document
  pub out : JsonOut
  pub error_out : ErrorOut

module _ (sdk : Sdk) where
  open sdk use {types}

  -- chartRunInputs
  pub record ChartRunInputs : Type 0 where
    pub ctx : Option ℕ
    pub cfg_obj : Option (Object types)
    pub chart_obj : Option (Object types)
    pub chart_ref : String
    pub name : String
    pub values_json : Document
    pub opts_json : Document

  chart_action_body :
      ChartShimArgs → (ChartRunInputs → Go (Process types) Json) → String → Go (Process types) Json
  chart_action_body a run name = do
    objs ← config_and_optional_chart a.cfg_h a.chart_h
    ctx ← ctx_or_background a.ctx_h
    run (record {
      ctx = ctx;
      cfg_obj = some objs.0;
      chart_obj = objs.1;
      chart_ref = go_string a.chart_ref;
      name = name;
      values_json = go_json a.values_json;
      opts_json = go_json a.opts_json;
    })

  -- chartActionShim
  unfoldable pub chart_action_shim :
      ChartShimArgs
      → (ChartRunInputs → Go (Process types) Json)
      → Process types
      → Reply JsonOut × Process types
  unfolding chart_action_body
  chart_action_shim a run = named_result a.name a.out a.error_out (chart_action_body a run)

  install_body : ChartRunInputs → Go (Process types) Json
  install_body i = do
    opts ← lift (parse_install_options i.opts_json)
    install_release sdk i.ctx i.cfg_obj i.chart_obj i.chart_ref i.name i.values_json opts

  -- helm_install
  unfoldable pub helm_install : ChartShimArgs → Process types → Reply JsonOut × Process types
  unfolding install_body
  helm_install a = chart_action_shim a install_body

  upgrade_body : ChartRunInputs → Go (Process types) Json
  upgrade_body i = do
    opts ← lift (parse_upgrade_options i.opts_json)
    upgrade_release sdk i.ctx i.cfg_obj i.chart_obj i.chart_ref i.name i.values_json opts

  -- helm_upgrade
  unfoldable pub helm_upgrade : ChartShimArgs → Process types → Reply JsonOut × Process types
  unfolding upgrade_body
  helm_upgrade a = chart_action_shim a upgrade_body

  release_action_body :
      ReleaseShimArgs
      → (Option (Object types) → String → Document → Go (Process types) Json)
      → String
      → Go (Process types) Json
  release_action_body a run name = do
    cfg_obj ← registry_get a.cfg_h type_config
    run (some cfg_obj) name (go_json a.opts_json)

  -- releaseAction
  unfoldable pub release_action :
      ReleaseShimArgs
      → (Option (Object types) → String → Document → Go (Process types) Json)
      → Process types
      → Reply JsonOut × Process types
  unfolding release_action_body
  release_action a run = named_result a.name a.out a.error_out (release_action_body a run)

  uninstall_body : Option (Object types) → String → Document → Go (Process types) Json
  uninstall_body cfg_obj name json = do
    opts ← lift (parse_uninstall_options json)
    uninstall_release sdk cfg_obj name opts

  -- helm_uninstall
  unfoldable pub helm_uninstall : ReleaseShimArgs → Process types → Reply JsonOut × Process types
  unfolding uninstall_body
  helm_uninstall a = release_action a uninstall_body

  status_body : Option (Object types) → String → Document → Go (Process types) Json
  status_body cfg_obj name json = do
    opts ← lift (parse_status_options json)
    status_release sdk cfg_obj name opts

  -- helm_status
  unfoldable pub helm_status : ReleaseShimArgs → Process types → Reply JsonOut × Process types
  unfolding status_body
  helm_status a = release_action a status_body

  history_body : Option (Object types) → String → Document → Go (Process types) Json
  history_body cfg_obj name json = do
    opts ← lift (parse_history_options json)
    history_release sdk cfg_obj name opts

  -- helm_history
  unfoldable pub helm_history : ReleaseShimArgs → Process types → Reply JsonOut × Process types
  unfolding history_body
  helm_history a = release_action a history_body

  rollback_body : ℕ → CString → Option Document → Go (Process types) (Unit {0})
  rollback_body cfg_h name json = do
    lift (require_args "name" (name ∷ []))
    cfg_obj ← registry_get cfg_h type_config
    opts ← lift (parse_rollback_options (go_json json))
    rollback_release sdk (some cfg_obj) (go_string name) opts

  -- helm_rollback
  unfoldable pub helm_rollback :
      ℕ → CString → Option Document → ErrorOut → Process types → Reply (Unit {0}) × Process types
  unfolding rollback_body
  helm_rollback cfg_h name json error_out = status_result error_out (rollback_body cfg_h name json)

  list_body : ℕ → Option Document → Go (Process types) Json
  list_body cfg_h json = do
    cfg_obj ← registry_get cfg_h type_config
    opts ← lift (parse_list_options (go_json json))
    list_releases sdk (some cfg_obj) opts

  -- helm_list
  unfoldable pub helm_list :
      ℕ → Option Document → JsonOut → ErrorOut → Process types → Reply JsonOut × Process types
  unfolding list_body
  helm_list cfg_h json out error_out = string_result out error_out (list_body cfg_h json)
