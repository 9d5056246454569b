-- ===== src/Capi/Registries/Frame.antt =====
-- capi/registry.go and the registry exports of capi/extra.go respect what the wrapper respects.
use helm_c_sdk.Base.{ℕ, Option, String}
use helm_c_sdk.Go.{Go}
use helm_c_sdk.Json.{Json, Document}
use helm_c_sdk.Handles.{type_config, type_registry_client}
use helm_c_sdk.Sdk.{Sdk}
use helm_c_sdk.Process.{Object, Process}
use helm_c_sdk.Process.Respects.{Respects, lifted, bound}
use helm_c_sdk.Wrapper.Clients.Frame.{pull_chart-Respects}
use helm_c_sdk.Wrapper.Clients.Remote.Frame.{
  login-Respects, logout-Respects, tags-Respects, resolve-Respects, push-Respects,
}
use helm_c_sdk.Wrapper.Show.Frame.{show_chart-Respects}
use helm_c_sdk.Wrapper.Testing.Frame.{check_reachable-Respects, set_client-Respects}
use helm_c_sdk.Capi.Boundary.{Slot, CString, ErrorOut}
use helm_c_sdk.Capi.Boundary.Frame.{string_result-Rel, status_result-Rel}
use helm_c_sdk.Capi.Actions.{JsonOut}
use helm_c_sdk.Capi.Registries.{
  chart_ref_client_result, registry_ref_shim, helm_registry_login, helm_registry_logout, helm_show,
  helm_pull, helm_push, helm_registry_tags, helm_registry_resolve, helm_config_set_registry_client,
  helm_config_check_reachable,
}
use helm_c_sdk.Process.Respects.Wide.{WideFrame}
use helm_c_sdk.Capi.Registry.Frame.{get-Respects, client_or_nil-Respects}

module _ (sdk : Sdk) (F : WideFrame sdk.types) where
  open sdk use {types}

  chart_ref-Rel :
      {A : Type 0} (client_h : ℕ) (ref : CString) (s : Slot (Option A)) (o : ErrorOut)
      (run : Option (Object types) → String → Go (Process types) A) (p : Process types)
      → ((obj : Option (Object types)) (ref : String) → Respects F.frame (run obj ref))
      → F.Rel p (chart_ref_client_result sdk client_h ref s o run p).1
  unfolding chart_ref_client_result
  chart_ref-Rel client_h ref s o run p k = string_result-Rel F.frame s o _ p (
      bound F.frame _ _ (lifted F.frame _)
        λ given. bound F.frame _ _ (client_or_nil-Respects F.frame client_h) λ obj. k obj _)

  ref_shim-Rel :
      (client_h : ℕ) (ref : CString) (s : JsonOut) (o : ErrorOut)
      (run : Option (Object types) → String → Go (Process types) Json) (p : Process types)
      → ((obj : Option (Object types)) (ref : String) → Respects F.frame (run obj ref))
      → F.Rel p (registry_ref_shim sdk client_h ref s o run p).1
  unfolding registry_ref_shim
  ref_shim-Rel client_h ref s o run p k = string_result-Rel F.frame s o _ p (
      bound F.frame _ _ (lifted F.frame _) λ given.
        bound F.frame _ _ (get-Respects F.frame client_h type_registry_client) λ obj. k _ _)

  pub helm_registry_login-Rel :
      (h : ℕ) (host username password : CString) (json : Option Document) (o : ErrorOut)
      (p : Process types)
      → F.Rel p (helm_registry_login sdk h host username password json o p).1
  unfolding helm_registry_login
  helm_registry_login-Rel h host username password json o p = status_result-Rel F.frame o _ p (
      bound F.frame _ _ (lifted F.frame _) λ given.
        bound F.frame _ _ (get-Respects F.frame h type_registry_client) λ obj.
          bound F.frame _ _ (lifted F.frame _) λ opts. login-Respects sdk F.frame _ _ _ _ opts)

  pub helm_registry_logout-Rel :
      (h : ℕ) (host : CString) (o : ErrorOut) (p : Process types)
      → F.Rel p (helm_registry_logout sdk h host o p).1
  unfolding helm_registry_logout
  helm_registry_logout-Rel h host o p = status_result-Rel F.frame o _ p (
      bound F.frame _ _ (lifted F.frame _) λ given.
        bound F.frame _ _ (get-Respects F.frame h type_registry_client)
          λ obj. logout-Respects sdk F.frame _ _)

  pub helm_show-Rel :
      (h : ℕ) (ref : CString) (json : Option Document) (s : Slot CString) (o : ErrorOut)
      (p : Process types)
      → F.Rel p (helm_show sdk h ref json s o p).1
  unfolding helm_show
  helm_show-Rel h ref json s o p = chart_ref-Rel h ref s o _ p λ obj given.
      bound F.frame _ _ (lifted F.frame _) λ opts. show_chart-Respects sdk F.frame obj given opts

  pub helm_pull-Rel :
      (h : ℕ) (ref : CString) (json : Option Document) (s : JsonOut) (o : ErrorOut)
      (p : Process types)
      → F.Rel p (helm_pull sdk h ref json s o p).1
  unfolding helm_pull
  helm_pull-Rel h ref json s o p = chart_ref-Rel h ref s o _ p λ obj given.
      bound F.frame _ _ (lifted F.frame _) λ opts. pull_chart-Respects sdk F.frame obj given opts

  pub helm_push-Rel :
      (h : ℕ) (path remote : CString) (json : Option Document) (s : JsonOut) (o : ErrorOut)
      (p : Process types)
      → F.Rel p (helm_push sdk h path remote json s o p).1
  unfolding helm_push
  helm_push-Rel h path remote json s o p = string_result-Rel F.frame s o _ p (
      bound F.frame _ _ (lifted F.frame _) λ given.
        bound F.frame _ _ (client_or_nil-Respects F.frame h) λ obj.
          bound F.frame _ _ (lifted F.frame _) λ opts. push-Respects sdk F.frame obj _ _ opts)

  pub helm_registry_tags-Rel :
      (h : ℕ) (ref : CString) (s : JsonOut) (o : ErrorOut) (p : Process types)
      → F.Rel p (helm_registry_tags sdk h ref s o p).1
  unfolding helm_registry_tags
  helm_registry_tags-Rel h ref s o p = ref_shim-Rel h ref s o _ p (tags-Respects sdk F.frame)

  pub helm_registry_resolve-Rel :
      (h : ℕ) (ref : CString) (s : JsonOut) (o : ErrorOut) (p : Process types)
      → F.Rel p (helm_registry_resolve sdk h ref s o p).1
  unfolding helm_registry_resolve
  helm_registry_resolve-Rel h ref s o p = ref_shim-Rel h ref s o _ p (resolve-Respects sdk F.frame)

  pub helm_config_set_registry_client-Rel :
      (cfg_h client_h : ℕ) (o : ErrorOut) (p : Process types)
      → F.Rel p (helm_config_set_registry_client sdk cfg_h client_h o p).1
  unfolding helm_config_set_registry_client
  helm_config_set_registry_client-Rel cfg_h client_h o p = status_result-Rel F.frame o _ p (
      bound F.frame _ _ (get-Respects F.frame cfg_h type_config) λ cfg_obj.
        bound F.frame _ _ (client_or_nil-Respects F.frame client_h)
          λ client_obj. set_client-Respects sdk F _ client_obj)

  pub helm_config_check_reachable-Rel :
      (cfg_h : ℕ) (o : ErrorOut) (p : Process types)
      → F.Rel p (helm_config_check_reachable sdk cfg_h o p).1
  unfolding helm_config_check_reachable
  helm_config_check_reachable-Rel cfg_h o p = status_result-Rel F.frame o _ p (
      bound F.frame _ _ (get-Respects F.frame cfg_h type_config)
        λ obj. check_reachable-Respects sdk F _)
