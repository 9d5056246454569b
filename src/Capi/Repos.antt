-- ===== src/Capi/Repos.antt =====
-- capi: repository indexes, provenance, and effective values, in extra.go, registry.go, dependency.go and
-- render.go.
pub mod Frame
use helm_c_sdk.Base.{ℕ, Option, some, String, [], ◌∷◌}
use helm_c_sdk.Go.{Go, lift, ◌>>=◌, ◌>>◌}
use helm_c_sdk.Handles.{type_chart}
use helm_c_sdk.Json.{Json, Document}
use helm_c_sdk.Options.Repo.{parse_repo_index_options, parse_repo_index_generate_options}
use helm_c_sdk.Sdk.{Sdk}
use helm_c_sdk.Process.{Object, Process}
use helm_c_sdk.Wrapper.Repos.{
  download_repo_index, generate_repo_index, verify_chart, merge_chart_values,
  validate_values_schema,
}
use helm_c_sdk.Capi.Boundary.{
  CString, ErrorOut, Reply, go_string, go_json, require_args, string_result, status_result,
}
use helm_c_sdk.Capi.Registry.{registry_get}
use helm_c_sdk.Capi.Actions.{JsonOut}
use helm_c_sdk.Capi.ChartData.{chart_handle_shim}

module _ (sdk : Sdk) where
  open sdk use {types}

  generate_body : CString → Option Document → Go (Process types) Json
  generate_body dir json = do
    lift (require_args "dir" (dir ∷ []))
    opts ← lift (parse_repo_index_generate_options (go_json json))
    generate_repo_index sdk (go_string dir) opts

  -- helm_repo_index_generate
  unfoldable pub helm_repo_index_generate :
      CString → Option Document → JsonOut → ErrorOut → Process types → Reply JsonOut × Process types
  unfolding generate_body
  helm_repo_index_generate dir json out error_out =
      string_result out error_out (generate_body dir json)

  download_body : CString → Option Document → Go (Process types) Json
  download_body repo_url json = do
    lift (require_args "repo_url" (repo_url ∷ []))
    opts ← lift (parse_repo_index_options (go_json json))
    download_repo_index sdk (go_string repo_url) opts

  -- helm_repo_index_download
  unfoldable pub helm_repo_index_download :
      CString → Option Document → JsonOut → ErrorOut → Process types → Reply JsonOut × Process types
  unfolding download_body
  helm_repo_index_download repo_url json out error_out =
      string_result out error_out (download_body repo_url json)

  verify_body : CString → CString → CString → Go (Process types) Json
  verify_body path prov_file keyring = do
    lift (require_args "path and keyring" (path ∷ keyring ∷ []))
    verify_chart sdk (go_string path) (go_string prov_file) (go_string keyring)

  -- helm_chart_verify
  unfoldable pub helm_chart_verify :
      CString
      → CString
      → CString
      → JsonOut
      → ErrorOut
      → Process types
      → Reply JsonOut × Process types
  unfolding verify_body
  helm_chart_verify path prov_file keyring out error_out =
      string_result out error_out (verify_body path prov_file keyring)

  -- helm_chart_merge_values
  unfoldable pub helm_chart_merge_values :
      ℕ → Option Document → JsonOut → ErrorOut → Process types → Reply JsonOut × Process types
  helm_chart_merge_values h values out error_out =
      chart_handle_shim sdk h out error_out (λ obj. merge_chart_values sdk obj (go_json values))

  schema_body : ℕ → Option Document → Go (Process types) (Unit {0})
  schema_body h values = do
    obj ← registry_get h type_chart
    validate_values_schema sdk (some obj) (go_json values)

  -- helm_schema_validate
  unfoldable pub helm_schema_validate :
      ℕ → Option Document → ErrorOut → Process types → Reply (Unit {0}) × Process types
  unfolding schema_body
  helm_schema_validate h values error_out = status_result error_out (schema_body h values)
