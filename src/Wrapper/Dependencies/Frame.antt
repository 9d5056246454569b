-- ===== src/Wrapper/Dependencies/Frame.antt =====
-- pkg/wrapper/dependency.go: the configurations while dependencies are updated.
use helm_c_sdk.Base.{String}
use helm_c_sdk.Errors.{code_repo}
use helm_c_sdk.Result.{Result, ok, err}
use helm_c_sdk.Go.{Go}
use helm_c_sdk.Sdk.{Sdk}
use helm_c_sdk.Process.{Process}
use helm_c_sdk.Process.Respects.{
  Frame, Respects, finished, swept, returned, lifted, looked, outside, outside_or, bound, failed,
  tried, recoded,
}
use helm_c_sdk.Options.Dependency.{DependencyOptions}
use helm_c_sdk.Sdk.Actions.{Manager}
use helm_c_sdk.Wrapper.Settings.Frame.{temp-Respects}
use helm_c_sdk.Wrapper.Charts.Frame.{load_chart-Respects}
use helm_c_sdk.Wrapper.Clients.Frame.{default_client-Respects}
use helm_c_sdk.Wrapper.Dependencies.{
  write_repo_config, or_remove, dependency_manager, run_manager, dependency_update,
  dependency_build,
}

module _ (sdk : Sdk) (F : Frame sdk.types) where
  open sdk use {types, Client}

  write_repo_config-Respects :
      (chart_dir path : String) (opts : DependencyOptions)
      → Respects F (write_repo_config sdk chart_dir path opts)
  unfolding write_repo_config
  write_repo_config-Respects chart_dir path opts = search (bound, load_chart-Respects, outside_or)

  or_remove-Respects : {A : Type 0} (dir : String) (r : Result A) → Respects F (or_remove sdk dir r)
  or_remove-Respects dir (ok a) = returned F a
  or_remove-Respects dir (err e) = bound F _ _ (swept F (sdk.remove_all dir)) λ a. failed F e

  dependency_manager-Respects :
      (chart_dir : String) (opts : DependencyOptions)
      → Respects F (dependency_manager sdk chart_dir opts)
  unfolding dependency_manager
  dependency_manager-Respects chart_dir opts =
      search
        (
          bound, returned, lifted, looked, tried, temp-Respects, write_repo_config-Respects,
          or_remove-Respects, default_client-Respects,
        )
        depth 16

  run_manager-Respects :
      (act : Manager types → Go (Process types) (Unit {0})) (m : Manager types × String)
      → ((n : Manager types) → Respects F (act n))
      → Respects F (run_manager sdk act m)
  unfolding run_manager
  run_manager-Respects act (m, cache) k =
      finished F _ (sdk.remove_all cache) (recoded F code_repo (act m) (k m))

  pub dependency_update-Respects :
      (chart_dir : String) (opts : DependencyOptions)
      → Respects F (dependency_update sdk chart_dir opts)
  unfolding dependency_update
  dependency_update-Respects chart_dir opts =
      bound F _ _ (dependency_manager-Respects chart_dir opts)
        λ m. run_manager-Respects _ m (λ n. outside F (sdk.manager_update n))

  pub dependency_build-Respects :
      (chart_dir : String) (opts : DependencyOptions)
      → Respects F (dependency_build sdk chart_dir opts)
  unfolding dependency_build
  dependency_build-Respects chart_dir opts =
      bound F _ _ (dependency_manager-Respects chart_dir opts)
        λ m. run_manager-Respects _ m (λ n. outside F (sdk.manager_build n))
