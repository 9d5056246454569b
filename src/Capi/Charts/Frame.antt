-- ===== src/Capi/Charts/Frame.antt =====
-- capi/dependency.go: the commands on a chart directory respect what changes of the outside world
-- and allocations respect.
use helm_c_sdk.Base.{Option, String}
use helm_c_sdk.Go.{Go}
use helm_c_sdk.Json.{Document}
use helm_c_sdk.Options.Dependency.{DependencyOptions}
use helm_c_sdk.Sdk.{Sdk}
use helm_c_sdk.Process.{Process}
use helm_c_sdk.Process.Respects.{Respects, lifted, bound}
use helm_c_sdk.Process.Respects.Wide.{WideFrame}
use helm_c_sdk.Wrapper.Dependencies.Frame.{dependency_update-Respects, dependency_build-Respects}
use helm_c_sdk.Wrapper.Dependencies.Status.Frame.{dependency_list-Respects}
use helm_c_sdk.Capi.Boundary.{CString, ErrorOut}
use helm_c_sdk.Capi.Boundary.Frame.{string_result-Rel, status_result-Rel}
use helm_c_sdk.Capi.Actions.{JsonOut}
use helm_c_sdk.Capi.Charts.{
  chart_dir_action, helm_dependency_update, helm_dependency_build, helm_dependency_list,
}

module _ (sdk : Sdk) (F : WideFrame sdk.types) where
  open sdk use {types}

  dir_action-Rel :
      (dir : CString) (json : Option Document) (o : ErrorOut)
      (run : String → DependencyOptions → Go (Process types) (Unit {0})) (p : Process types)
      → ((dir : String) (opts : DependencyOptions) → Respects F.frame (run dir opts))
      → F.Rel p (chart_dir_action sdk dir json o run p).1
  unfolding chart_dir_action
  dir_action-Rel dir json o run p k = status_result-Rel F.frame o _ p (
      bound F.frame _ _ (lifted F.frame _)
        λ given. bound F.frame _ _ (lifted F.frame _) λ opts. k _ opts)

  pub helm_dependency_update-Rel :
      (dir : CString) (json : Option Document) (o : ErrorOut) (p : Process types)
      → F.Rel p (helm_dependency_update sdk dir json o p).1
  unfolding helm_dependency_update
  helm_dependency_update-Rel dir json o p =
      dir_action-Rel dir json o _ p (dependency_update-Respects sdk F.frame)

  pub helm_dependency_build-Rel :
      (dir : CString) (json : Option Document) (o : ErrorOut) (p : Process types)
      → F.Rel p (helm_dependency_build sdk dir json o p).1
  unfolding helm_dependency_build
  helm_dependency_build-Rel dir json o p =
      dir_action-Rel dir json o _ p (dependency_build-Respects sdk F.frame)

  pub helm_dependency_list-Rel :
      (dir : CString) (s : JsonOut) (o : ErrorOut) (p : Process types)
      → F.Rel p (helm_dependency_list sdk dir s o p).1
  unfolding helm_dependency_list
  helm_dependency_list-Rel dir s o p =
      string_result-Rel F.frame s o _ p
        (bound F.frame _ _ (lifted F.frame _) λ given. dependency_list-Respects sdk F.frame _)
