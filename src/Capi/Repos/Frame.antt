-- ===== src/Capi/Repos/Frame.antt =====
-- capi: the exports for repository indexes, provenance and effective values respect every relation.
use helm_c_sdk.Base.{ℕ, Option}
use helm_c_sdk.Handles.{type_chart}
use helm_c_sdk.Json.{Document}
use helm_c_sdk.Sdk.{Sdk}
use helm_c_sdk.Process.{Process}
use helm_c_sdk.Process.Respects.{Frame, lifted, bound}
use helm_c_sdk.Wrapper.Repos.Frame.{
  download_repo_index-Respects, generate_repo_index-Respects, verify_chart-Respects,
  merge_values-Respects, validate_schema-Respects,
}
use helm_c_sdk.Capi.Boundary.{CString, ErrorOut}
use helm_c_sdk.Capi.Boundary.Frame.{string_result-Rel, status_result-Rel}
use helm_c_sdk.Capi.Registry.Frame.{get-Respects}
use helm_c_sdk.Capi.Actions.{JsonOut}
use helm_c_sdk.Capi.ChartData.Frame.{shim-Rel}
use helm_c_sdk.Capi.Repos.{
  helm_repo_index_generate, helm_repo_index_download, helm_chart_verify, helm_chart_merge_values,
  helm_schema_validate,
}

module _ (sdk : Sdk) (F : Frame sdk.types) where
  open sdk use {types}

  pub helm_repo_index_generate-Rel :
      (dir : CString) (json : Option Document) (s : JsonOut) (o : ErrorOut) (p : Process types)
      → F.Rel p (helm_repo_index_generate sdk dir json s o p).1
  unfolding helm_repo_index_generate
  helm_repo_index_generate-Rel dir json s o p = string_result-Rel F s o _ p (
      bound F _ _ (lifted F _)
        λ given. bound F _ _ (lifted F _) λ opts. generate_repo_index-Respects sdk F _ opts)

  pub helm_repo_index_download-Rel :
      (url : CString) (json : Option Document) (s : JsonOut) (o : ErrorOut) (p : Process types)
      → F.Rel p (helm_repo_index_download sdk url json s o p).1
  unfolding helm_repo_index_download
  helm_repo_index_download-Rel url json s o p = string_result-Rel F s o _ p (
      bound F _ _ (lifted F _)
        λ given. bound F _ _ (lifted F _) λ opts. download_repo_index-Respects sdk F _ opts)

  pub helm_chart_verify-Rel :
      (path prov ring : CString) (s : JsonOut) (o : ErrorOut) (p : Process types)
      → F.Rel p (helm_chart_verify sdk path prov ring s o p).1
  unfolding helm_chart_verify
  helm_chart_verify-Rel path prov ring s o p =
      string_result-Rel F s o _ p
        (bound F _ _ (lifted F _) λ given. verify_chart-Respects sdk F _ _ _)

  pub helm_chart_merge_values-Rel :
      (h : ℕ) (values : Option Document) (s : JsonOut) (o : ErrorOut) (p : Process types)
      → F.Rel p (helm_chart_merge_values sdk h values s o p).1
  unfolding helm_chart_merge_values
  helm_chart_merge_values-Rel h values s o p =
      shim-Rel sdk F h s o _ p λ obj. merge_values-Respects sdk F obj _

  pub helm_schema_validate-Rel :
      (h : ℕ) (values : Option Document) (o : ErrorOut) (p : Process types)
      → F.Rel p (helm_schema_validate sdk h values o p).1
  unfolding helm_schema_validate
  helm_schema_validate-Rel h values o p =
      status_result-Rel F o _ p
        (bound F _ _ (get-Respects F h type_chart) λ obj. validate_schema-Respects sdk F _ _)
