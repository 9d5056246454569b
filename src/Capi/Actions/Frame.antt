-- ===== src/Capi/Actions/Frame.antt =====
-- capi/actions.go and the release actions of capi/extra.go respect what the wrapper respects.
use helm_c_sdk.Base.{ℕ, Option, String}
use helm_c_sdk.Result.{Result}
use helm_c_sdk.Go.{Go, lift, ◌>>=◌}
use helm_c_sdk.Json.{Json, Document}
use helm_c_sdk.Handles.{type_config}
use helm_c_sdk.Sdk.{Sdk}
use helm_c_sdk.Process.{Object, Process}
use helm_c_sdk.Process.Respects.{Respects, lifted, bound}
use helm_c_sdk.Wrapper.Install.Frame.{install-Respects}
use helm_c_sdk.Wrapper.Upgrade.Frame.{upgrade-Respects}
use helm_c_sdk.Wrapper.Releases.Frame.{
  uninstall_release-Respects, rollback_release-Respects, list_releases-Respects,
  status_release-Respects, history_release-Respects, get_release-Respects, get_metadata-Respects,
  get_values-Respects,
}
use helm_c_sdk.Wrapper.Testing.Frame.{test_release-Respects}
use helm_c_sdk.Capi.Boundary.{CString, ErrorOut}
use helm_c_sdk.Capi.Boundary.Frame.{string_result-Rel, named_result-Rel, status_result-Rel}
use helm_c_sdk.Capi.Actions.{
  JsonOut, ChartShimArgs, ReleaseShimArgs, ChartRunInputs, chart_action_shim, release_action,
  helm_install, helm_upgrade, helm_uninstall, helm_status, helm_history, helm_rollback, helm_list,
}
use helm_c_sdk.Capi.Actions.Inspect.{helm_get, helm_get_metadata, helm_get_values, helm_test_run}
use helm_c_sdk.Capi.Contexts.Frame.{background-Respects}
use helm_c_sdk.Process.Respects.Wide.{WideFrame}
use helm_c_sdk.Capi.Registry.Frame.{get-Respects, config_and_chart-Respects}

module _ (sdk : Sdk) (F : WideFrame sdk.types) where
  open sdk use {types}

  shim-Rel :
      (a : ChartShimArgs) (run : ChartRunInputs sdk → Go (Process types) Json) (p : Process types)
      → ((i : ChartRunInputs sdk) → Respects F.frame (run i))
      → F.Rel p (chart_action_shim sdk a run p).1
  unfolding chart_action_shim
  shim-Rel a run p k = named_result-Rel F.frame a.name a.out a.error_out _ p λ name.
      bound F.frame _ _ (config_and_chart-Respects F.frame a.cfg_h a.chart_h)
        λ objs. bound F.frame _ _ (background-Respects F.frame a.ctx_h) λ ctx. k _

  action-Rel :
      (a : ReleaseShimArgs)
      (run : Option (Object types) → String → Document → Go (Process types) Json)
      (p : Process types)
      → ((obj : Option (Object types)) (name : String) (json : Document)
          → Respects F.frame (run obj name json))
      → F.Rel p (release_action sdk a run p).1
  unfolding release_action
  action-Rel a run p k =
      named_result-Rel F.frame a.name a.out a.error_out _ p
        λ name. bound F.frame _ _ (get-Respects F.frame a.cfg_h type_config) λ obj. k _ name _

  -- Options are parsed, then the action runs.
  parsed :
      {A B : Type 0} (r : Result B) (f : B → Go (Process types) A)
      → ((b : B) → Respects F.frame (f b))
      → Respects F.frame (lift r >>= f)
  parsed r f k = bound F.frame _ _ (lifted F.frame r) k

  pub helm_install-Rel : (a : ChartShimArgs) (p : Process types) → F.Rel p (helm_install sdk a p).1
  unfolding helm_install
  helm_install-Rel a p =
      shim-Rel a _ p λ i. parsed _ _ λ opts. install-Respects sdk F _ _ _ _ _ _ opts

  pub helm_upgrade-Rel : (a : ChartShimArgs) (p : Process types) → F.Rel p (helm_upgrade sdk a p).1
  unfolding helm_upgrade
  helm_upgrade-Rel a p =
      shim-Rel a _ p λ i. parsed _ _ λ opts. upgrade-Respects sdk F _ _ _ _ _ _ opts

  pub helm_uninstall-Rel :
      (a : ReleaseShimArgs) (p : Process types) → F.Rel p (helm_uninstall sdk a p).1
  unfolding helm_uninstall
  helm_uninstall-Rel a p =
      action-Rel a _ p
        λ obj name json. parsed _ _ λ opts. uninstall_release-Respects sdk F obj name opts

  pub helm_status-Rel : (a : ReleaseShimArgs) (p : Process types) → F.Rel p (helm_status sdk a p).1
  unfolding helm_status
  helm_status-Rel a p =
      action-Rel a _ p
        λ obj name json. parsed _ _ λ opts. status_release-Respects sdk F obj name opts

  pub helm_history-Rel :
      (a : ReleaseShimArgs) (p : Process types) → F.Rel p (helm_history sdk a p).1
  unfolding helm_history
  helm_history-Rel a p =
      action-Rel a _ p
        λ obj name json. parsed _ _ λ opts. history_release-Respects sdk F obj name opts

  pub helm_get-Rel : (a : ReleaseShimArgs) (p : Process types) → F.Rel p (helm_get sdk a p).1
  unfolding helm_get
  helm_get-Rel a p =
      action-Rel a _ p λ obj name json. parsed _ _ λ opts. get_release-Respects sdk F obj name opts

  pub helm_get_metadata-Rel :
      (a : ReleaseShimArgs) (p : Process types) → F.Rel p (helm_get_metadata sdk a p).1
  unfolding helm_get_metadata
  helm_get_metadata-Rel a p =
      action-Rel a _ p λ obj name json. parsed _ _ λ opts. get_metadata-Respects sdk F obj name opts

  pub helm_get_values-Rel :
      (a : ReleaseShimArgs) (p : Process types) → F.Rel p (helm_get_values sdk a p).1
  unfolding helm_get_values
  helm_get_values-Rel a p =
      action-Rel a _ p λ obj name json. parsed _ _ λ opts. get_values-Respects sdk F obj name opts

  pub helm_test_run-Rel :
      (a : ReleaseShimArgs) (p : Process types) → F.Rel p (helm_test_run sdk a p).1
  unfolding helm_test_run
  helm_test_run-Rel a p =
      action-Rel a _ p λ obj name json. parsed _ _ λ opts. test_release-Respects sdk F obj name opts

  pub helm_rollback-Rel :
      (cfg_h : ℕ) (name : CString) (json : Option Document) (o : ErrorOut) (p : Process types)
      → F.Rel p (helm_rollback sdk cfg_h name json o p).1
  unfolding helm_rollback
  helm_rollback-Rel cfg_h name json o p = status_result-Rel F.frame o _ p (
      parsed _ _ λ given.
        bound F.frame _ _ (get-Respects F.frame cfg_h type_config)
          λ obj. parsed _ _ λ opts. rollback_release-Respects sdk F _ _ opts)

  pub helm_list-Rel :
      (cfg_h : ℕ) (json : Option Document) (s : JsonOut) (o : ErrorOut) (p : Process types)
      → F.Rel p (helm_list sdk cfg_h json s o p).1
  unfolding helm_list
  helm_list-Rel cfg_h json s o p = string_result-Rel F.frame s o _ p (
      bound F.frame _ _ (get-Respects F.frame cfg_h type_config)
        λ obj. parsed _ _ λ opts. list_releases-Respects sdk F _ opts)
