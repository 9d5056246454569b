-- ===== src/Capi/System.antt =====
-- The calls of the C ABI that work on handles, one after the other, with what else happens to the
-- world between them. A call runs to its end before the next begins: interleavings within the calls
-- of two threads are not modelled.
pub mod Frame
pub mod Typing
use helm_c_sdk.Base.{ℕ, Option, List, [], ◌∷◌}
use helm_c_sdk.Json.{Document}
use helm_c_sdk.Sdk.{Sdk}
use helm_c_sdk.Sdk.Structs.{Types, Outside}
use helm_c_sdk.Process.{Process}
use helm_c_sdk.Capi.Boundary.{Slot, CString, ErrorOut}
use helm_c_sdk.Capi.Registry.{helm_handle_free, helm_chart_free, helm_registry_client_free}
use helm_c_sdk.Capi.Contexts.{
  helm_context_new, helm_context_cancel, helm_context_free, helm_config_new, helm_config_free,
}
use helm_c_sdk.Capi.Actions.{
  JsonOut, ChartShimArgs, ReleaseShimArgs, helm_install, helm_upgrade, helm_uninstall, helm_status,
  helm_history, helm_rollback, helm_list,
}
use helm_c_sdk.Capi.Actions.Inspect.{helm_get, helm_get_metadata, helm_get_values, helm_test_run}
use helm_c_sdk.Capi.Charts.{
  helm_chart_load, helm_chart_load_archive, helm_dependency_update, helm_dependency_build,
  helm_dependency_list,
}
use helm_c_sdk.Capi.ChartData.{
  helm_release_name_validate, helm_chart_metadata, helm_chart_values, helm_chart_files,
  helm_chart_templates, helm_chart_crds, helm_chart_dependencies, helm_chart_schema,
  helm_chart_save, helm_chart_save_dir, helm_chart_create, helm_chart_create_from,
  helm_chart_expand, helm_chart_digest, helm_values_from_yaml, helm_strvals_parse,
  helm_strvals_parse_string, helm_strvals_parse_json, helm_strvals_parse_literal,
  helm_strvals_parse_file,
}
use helm_c_sdk.Capi.Repos.{
  helm_repo_index_generate, helm_repo_index_download, helm_chart_verify, helm_chart_merge_values,
  helm_schema_validate,
}
use helm_c_sdk.Capi.Registries.{
  helm_registry_client_new, helm_registry_login, helm_registry_logout, helm_show, helm_pull,
  helm_push, helm_registry_tags, helm_registry_resolve, helm_config_set_registry_client,
  helm_config_check_reachable,
}

-- The modelled exports that neither make nor free a handle. helm_set_log_handler and the exports that
-- render, lint, package and sign are none of them.
pub data Use : Type 0 where
  context_cancel : ℕ → ErrorOut → Use
  install : ChartShimArgs → Use
  upgrade : ChartShimArgs → Use
  uninstall : ReleaseShimArgs → Use
  status : ReleaseShimArgs → Use
  history : ReleaseShimArgs → Use
  get_release : ReleaseShimArgs → Use
  get_metadata : ReleaseShimArgs → Use
  get_values : ReleaseShimArgs → Use
  test_run : ReleaseShimArgs → Use
  rollback : ℕ → CString → Option Document → ErrorOut → Use
  list_releases : ℕ → Option Document → JsonOut → ErrorOut → Use
  dependency_update : CString → Option Document → ErrorOut → Use
  dependency_build : CString → Option Document → ErrorOut → Use
  dependency_list : CString → JsonOut → ErrorOut → Use
  registry_login : ℕ → CString → CString → CString → Option Document → ErrorOut → Use
  registry_logout : ℕ → CString → ErrorOut → Use
  registry_tags : ℕ → CString → JsonOut → ErrorOut → Use
  registry_resolve : ℕ → CString → JsonOut → ErrorOut → Use
  show : ℕ → CString → Option Document → Slot CString → ErrorOut → Use
  pull : ℕ → CString → Option Document → JsonOut → ErrorOut → Use
  push : ℕ → CString → CString → Option Document → JsonOut → ErrorOut → Use
  set_registry_client : ℕ → ℕ → ErrorOut → Use
  check_reachable : ℕ → ErrorOut → Use
  repo_index_generate : CString → Option Document → JsonOut → ErrorOut → Use
  repo_index_download : CString → Option Document → JsonOut → ErrorOut → Use
  chart_verify : CString → CString → CString → JsonOut → ErrorOut → Use
  chart_merge_values : ℕ → Option Document → JsonOut → ErrorOut → Use
  schema_validate : ℕ → Option Document → ErrorOut → Use
  validate_name : CString → ErrorOut → Use
  chart_metadata : ℕ → JsonOut → ErrorOut → Use
  chart_values : ℕ → JsonOut → ErrorOut → Use
  chart_files : ℕ → JsonOut → ErrorOut → Use
  chart_templates : ℕ → JsonOut → ErrorOut → Use
  chart_crds : ℕ → JsonOut → ErrorOut → Use
  chart_dependencies : ℕ → JsonOut → ErrorOut → Use
  chart_schema : ℕ → Slot CString → ErrorOut → Use
  chart_save : ℕ → CString → Slot CString → ErrorOut → Use
  chart_save_dir : ℕ → CString → Slot CString → ErrorOut → Use
  chart_create : CString → CString → Slot CString → ErrorOut → Use
  chart_create_from : CString → CString → CString → Slot CString → ErrorOut → Use
  chart_expand : CString → CString → ErrorOut → Use
  chart_digest : CString → Slot CString → ErrorOut → Use
  values_from_yaml : CString → JsonOut → ErrorOut → Use
  strvals_parse : CString → JsonOut → ErrorOut → Use
  strvals_parse_string : CString → JsonOut → ErrorOut → Use
  strvals_parse_json : CString → JsonOut → ErrorOut → Use
  strvals_parse_literal : CString → JsonOut → ErrorOut → Use
  strvals_parse_file : CString → JsonOut → ErrorOut → Use

-- Those, the exports that make or free a handle, and a change of the world that no call makes.
pub data Request (t : Types) : Type 0 where
  uses : Use → Request t
  meanwhile : Outside t → Request t
  handle_free : ℕ → ErrorOut → Request t
  chart_load : CString → Slot ℕ → ErrorOut → Request t
  chart_load_archive : Option (List ℕ) → ℕ → Slot ℕ → ErrorOut → Request t
  chart_free : ℕ → ErrorOut → Request t
  config_new : Option Document → Slot ℕ → ErrorOut → Request t
  config_free : ℕ → ErrorOut → Request t
  client_new : Option Document → Slot ℕ → ErrorOut → Request t
  client_free : ℕ → ErrorOut → Request t
  context_new : Slot ℕ → ErrorOut → Request t
  context_free : ℕ → ErrorOut → Request t

module _ (sdk : Sdk) where
  open sdk use {types}

  unfoldable pub serve_use : Use → Process types → Process types
  serve_use (Use.context_cancel h o) p = (helm_context_cancel h o p).1
  serve_use (Use.install a) p = (helm_install sdk a p).1
  serve_use (Use.upgrade a) p = (helm_upgrade sdk a p).1
  serve_use (Use.uninstall a) p = (helm_uninstall sdk a p).1
  serve_use (Use.status a) p = (helm_status sdk a p).1
  serve_use (Use.history a) p = (helm_history sdk a p).1
  serve_use (Use.get_release a) p = (helm_get sdk a p).1
  serve_use (Use.get_metadata a) p = (helm_get_metadata sdk a p).1
  serve_use (Use.get_values a) p = (helm_get_values sdk a p).1
  serve_use (Use.test_run a) p = (helm_test_run sdk a p).1
  serve_use (Use.rollback h name json o) p = (helm_rollback sdk h name json o p).1
  serve_use (Use.list_releases h json s o) p = (helm_list sdk h json s o p).1
  serve_use (Use.dependency_update dir json o) p = (helm_dependency_update sdk dir json o p).1
  serve_use (Use.dependency_build dir json o) p = (helm_dependency_build sdk dir json o p).1
  serve_use (Use.dependency_list dir s o) p = (helm_dependency_list sdk dir s o p).1
  serve_use (Use.registry_login h host user pass json o) p =
      (helm_registry_login sdk h host user pass json o p).1
  serve_use (Use.registry_logout h host o) p = (helm_registry_logout sdk h host o p).1
  serve_use (Use.registry_tags h ref s o) p = (helm_registry_tags sdk h ref s o p).1
  serve_use (Use.registry_resolve h ref s o) p = (helm_registry_resolve sdk h ref s o p).1
  serve_use (Use.show h ref json s o) p = (helm_show sdk h ref json s o p).1
  serve_use (Use.pull h ref json s o) p = (helm_pull sdk h ref json s o p).1
  serve_use (Use.push h path remote json s o) p = (helm_push sdk h path remote json s o p).1
  serve_use (Use.set_registry_client h c o) p = (helm_config_set_registry_client sdk h c o p).1
  serve_use (Use.check_reachable h o) p = (helm_config_check_reachable sdk h o p).1
  serve_use (Use.validate_name name o) p = (helm_release_name_validate sdk name o p).1
  serve_use (Use.chart_metadata h s o) p = (helm_chart_metadata sdk h s o p).1
  serve_use (Use.chart_values h s o) p = (helm_chart_values sdk h s o p).1
  serve_use (Use.chart_files h s o) p = (helm_chart_files sdk h s o p).1
  serve_use (Use.chart_templates h s o) p = (helm_chart_templates sdk h s o p).1
  serve_use (Use.chart_crds h s o) p = (helm_chart_crds sdk h s o p).1
  serve_use (Use.chart_dependencies h s o) p = (helm_chart_dependencies sdk h s o p).1
  serve_use (Use.chart_schema h s o) p = (helm_chart_schema sdk h s o p).1
  serve_use (Use.chart_save h dir s o) p = (helm_chart_save sdk h dir s o p).1
  serve_use (Use.chart_save_dir h dir s o) p = (helm_chart_save_dir sdk h dir s o p).1
  serve_use (Use.chart_create name dir s o) p = (helm_chart_create sdk name dir s o p).1
  serve_use (Use.chart_create_from name dir starter s o) p =
      (helm_chart_create_from sdk name dir starter s o p).1
  serve_use (Use.chart_expand dir path o) p = (helm_chart_expand sdk dir path o p).1
  serve_use (Use.chart_digest path s o) p = (helm_chart_digest sdk path s o p).1
  serve_use (Use.values_from_yaml yaml s o) p = (helm_values_from_yaml sdk yaml s o p).1
  serve_use (Use.strvals_parse text s o) p = (helm_strvals_parse sdk text s o p).1
  serve_use (Use.strvals_parse_string text s o) p = (helm_strvals_parse_string sdk text s o p).1
  serve_use (Use.strvals_parse_json text s o) p = (helm_strvals_parse_json sdk text s o p).1
  serve_use (Use.strvals_parse_literal text s o) p = (helm_strvals_parse_literal sdk text s o p).1
  serve_use (Use.strvals_parse_file text s o) p = (helm_strvals_parse_file sdk text s o p).1
  serve_use (Use.repo_index_generate dir json s o) p =
      (helm_repo_index_generate sdk dir json s o p).1
  serve_use (Use.repo_index_download url json s o) p =
      (helm_repo_index_download sdk url json s o p).1
  serve_use (Use.chart_verify path prov ring s o) p = (helm_chart_verify sdk path prov ring s o p).1
  serve_use (Use.chart_merge_values h json s o) p = (helm_chart_merge_values sdk h json s o p).1
  serve_use (Use.schema_validate h json o) p = (helm_schema_validate sdk h json o p).1

  unfoldable pub serve : Request types → Process types → Process types
  serve (Request.uses u) p = serve_use u p
  serve (Request.meanwhile o) p = record p { outside = o }
  serve (Request.handle_free h o) p = (helm_handle_free h o p).1
  serve (Request.chart_load path s o) p = (helm_chart_load sdk path s o p).1
  serve (Request.chart_load_archive bytes n s o) p = (helm_chart_load_archive sdk bytes n s o p).1
  serve (Request.chart_free h o) p = (helm_chart_free h o p).1
  serve (Request.config_new json s o) p = (helm_config_new sdk json s o p).1
  serve (Request.config_free h o) p = (helm_config_free sdk h o p).1
  serve (Request.client_new json s o) p = (helm_registry_client_new sdk json s o p).1
  serve (Request.client_free h o) p = (helm_registry_client_free h o p).1
  serve (Request.context_new s o) p = (helm_context_new s o p).1
  serve (Request.context_free h o) p = (helm_context_free h o p).1

  unfoldable pub serve_all : List (Request types) → Process types → Process types
  serve_all [] p = p
  serve_all (r ∷ rs) p = serve_all rs (serve r p)
