-- ===== src/Capi/System/Frame.antt =====
-- What the calls of the C ABI keep of the registry of handles.
use helm_c_sdk.Base.{◌≡◌, List, [], ◌∷◌}
use helm_c_sdk.Sdk.{Sdk}
use helm_c_sdk.Process.{Process}
use helm_c_sdk.Process.Respects.Wide.{WideFrame, untouched}
use helm_c_sdk.Capi.System.{Use, Request, serve_use, serve, serve_all}
use helm_c_sdk.Capi.Contexts.Frame.{helm_context_cancel-Rel}
use helm_c_sdk.Capi.Actions.Frame.{
  helm_install-Rel, helm_upgrade-Rel, helm_uninstall-Rel, helm_status-Rel, helm_history-Rel,
  helm_get-Rel, helm_get_metadata-Rel, helm_get_values-Rel, helm_test_run-Rel, helm_rollback-Rel,
  helm_list-Rel,
}
use helm_c_sdk.Capi.Charts.Frame.{
  helm_dependency_update-Rel, helm_dependency_build-Rel, helm_dependency_list-Rel,
}
use helm_c_sdk.Capi.ChartData.Frame.{
  helm_release_name_validate-Rel, helm_chart_metadata-Rel, helm_chart_values-Rel,
  helm_chart_files-Rel, helm_chart_templates-Rel, helm_chart_crds-Rel, helm_chart_dependencies-Rel,
  helm_chart_schema-Rel, helm_chart_save-Rel, helm_chart_save_dir-Rel, helm_chart_create-Rel,
  helm_chart_create_from-Rel, helm_chart_expand-Rel, helm_chart_digest-Rel,
  helm_values_from_yaml-Rel, helm_strvals_parse-Rel, helm_strvals_parse_string-Rel,
  helm_strvals_parse_json-Rel, helm_strvals_parse_literal-Rel, helm_strvals_parse_file-Rel,
}
use helm_c_sdk.Capi.Repos.Frame.{
  helm_repo_index_generate-Rel, helm_repo_index_download-Rel, helm_chart_verify-Rel,
  helm_chart_merge_values-Rel, helm_schema_validate-Rel,
}
use helm_c_sdk.Capi.Registries.Frame.{
  helm_registry_login-Rel, helm_registry_logout-Rel, helm_show-Rel, helm_pull-Rel, helm_push-Rel,
  helm_registry_tags-Rel, helm_registry_resolve-Rel, helm_config_set_registry_client-Rel,
  helm_config_check_reachable-Rel,
}
use helm_c_sdk.Capi.Tags.{IsTagged, tagging}
use helm_c_sdk.Capi.Tags.Lifecycle.{
  helm_handle_free-IsTagged, helm_chart_free-IsTagged, helm_registry_client_free-IsTagged,
  helm_context_new-IsTagged, helm_context_free-IsTagged, helm_config_new-IsTagged,
  helm_config_free-IsTagged, helm_registry_client_new-IsTagged,
}
use helm_c_sdk.Capi.Tags.Charts.{helm_chart_load-IsTagged, helm_chart_load_archive-IsTagged}

module _ (sdk : Sdk) where
  open sdk use {types}

  serve_use-Rel :
      (F : WideFrame types) (u : Use) (p : Process types) → F.frame.Rel p (serve_use sdk u p)
  unfolding serve_use
  serve_use-Rel F (Use.context_cancel h o) p = helm_context_cancel-Rel F.frame h o p
  serve_use-Rel F (Use.install a) p = helm_install-Rel sdk F a p
  serve_use-Rel F (Use.upgrade a) p = helm_upgrade-Rel sdk F a p
  serve_use-Rel F (Use.uninstall a) p = helm_uninstall-Rel sdk F a p
  serve_use-Rel F (Use.status a) p = helm_status-Rel sdk F a p
  serve_use-Rel F (Use.history a) p = helm_history-Rel sdk F a p
  serve_use-Rel F (Use.get_release a) p = helm_get-Rel sdk F a p
  serve_use-Rel F (Use.get_metadata a) p = helm_get_metadata-Rel sdk F a p
  serve_use-Rel F (Use.get_values a) p = helm_get_values-Rel sdk F a p
  serve_use-Rel F (Use.test_run a) p = helm_test_run-Rel sdk F a p
  serve_use-Rel F (Use.rollback h name json o) p = helm_rollback-Rel sdk F h name json o p
  serve_use-Rel F (Use.list_releases h json s o) p = helm_list-Rel sdk F h json s o p
  serve_use-Rel F (Use.dependency_update dir json o) p =
      helm_dependency_update-Rel sdk F dir json o p
  serve_use-Rel F (Use.dependency_build dir json o) p = helm_dependency_build-Rel sdk F dir json o p
  serve_use-Rel F (Use.dependency_list dir s o) p = helm_dependency_list-Rel sdk F dir s o p
  serve_use-Rel F (Use.registry_login h host user pass json o) p =
      helm_registry_login-Rel sdk F h host user pass json o p
  serve_use-Rel F (Use.registry_logout h host o) p = helm_registry_logout-Rel sdk F h host o p
  serve_use-Rel F (Use.registry_tags h ref s o) p = helm_registry_tags-Rel sdk F h ref s o p
  serve_use-Rel F (Use.registry_resolve h ref s o) p = helm_registry_resolve-Rel sdk F h ref s o p
  serve_use-Rel F (Use.show h ref json s o) p = helm_show-Rel sdk F h ref json s o p
  serve_use-Rel F (Use.pull h ref json s o) p = helm_pull-Rel sdk F h ref json s o p
  serve_use-Rel F (Use.push h path remote json s o) p = helm_push-Rel sdk F h path remote json s o p
  serve_use-Rel F (Use.set_registry_client h c o) p =
      helm_config_set_registry_client-Rel sdk F h c o p
  serve_use-Rel F (Use.check_reachable h o) p = helm_config_check_reachable-Rel sdk F h o p
  serve_use-Rel F (Use.validate_name name o) p = helm_release_name_validate-Rel sdk F.frame name o p
  serve_use-Rel F (Use.chart_metadata h s o) p = helm_chart_metadata-Rel sdk F.frame h s o p
  serve_use-Rel F (Use.chart_values h s o) p = helm_chart_values-Rel sdk F.frame h s o p
  serve_use-Rel F (Use.chart_files h s o) p = helm_chart_files-Rel sdk F.frame h s o p
  serve_use-Rel F (Use.chart_templates h s o) p = helm_chart_templates-Rel sdk F.frame h s o p
  serve_use-Rel F (Use.chart_crds h s o) p = helm_chart_crds-Rel sdk F.frame h s o p
  serve_use-Rel F (Use.chart_dependencies h s o) p = helm_chart_dependencies-Rel sdk F.frame h s o p
  serve_use-Rel F (Use.chart_schema h s o) p = helm_chart_schema-Rel sdk F.frame h s o p
  serve_use-Rel F (Use.chart_save h dir s o) p = helm_chart_save-Rel sdk F.frame h dir s o p
  serve_use-Rel F (Use.chart_save_dir h dir s o) p = helm_chart_save_dir-Rel sdk F.frame h dir s o p
  serve_use-Rel F (Use.chart_create name dir s o) p =
      helm_chart_create-Rel sdk F.frame name dir s o p
  serve_use-Rel F (Use.chart_create_from name dir starter s o) p =
      helm_chart_create_from-Rel sdk F.frame name dir starter s o p
  serve_use-Rel F (Use.chart_expand dir path o) p = helm_chart_expand-Rel sdk F.frame dir path o p
  serve_use-Rel F (Use.chart_digest path s o) p = helm_chart_digest-Rel sdk F.frame path s o p
  serve_use-Rel F (Use.values_from_yaml yaml s o) p =
      helm_values_from_yaml-Rel sdk F.frame yaml s o p
  serve_use-Rel F (Use.strvals_parse text s o) p = helm_strvals_parse-Rel sdk F.frame text s o p
  serve_use-Rel F (Use.strvals_parse_string text s o) p =
      helm_strvals_parse_string-Rel sdk F.frame text s o p
  serve_use-Rel F (Use.strvals_parse_json text s o) p =
      helm_strvals_parse_json-Rel sdk F.frame text s o p
  serve_use-Rel F (Use.strvals_parse_literal text s o) p =
      helm_strvals_parse_literal-Rel sdk F.frame text s o p
  serve_use-Rel F (Use.strvals_parse_file text s o) p =
      helm_strvals_parse_file-Rel sdk F.frame text s o p
  serve_use-Rel F (Use.repo_index_generate dir json s o) p =
      helm_repo_index_generate-Rel sdk F.frame dir json s o p
  serve_use-Rel F (Use.repo_index_download url json s o) p =
      helm_repo_index_download-Rel sdk F.frame url json s o p
  serve_use-Rel F (Use.chart_verify path prov ring s o) p =
      helm_chart_verify-Rel sdk F.frame path prov ring s o p
  serve_use-Rel F (Use.chart_merge_values h json s o) p =
      helm_chart_merge_values-Rel sdk F.frame h json s o p
  serve_use-Rel F (Use.schema_validate h json o) p = helm_schema_validate-Rel sdk F.frame h json o p

  -- A call of Use leaves the registry of handles exactly as it is, whatever it answers: every handle
  -- still stands for the same object under the same tag, and no handle was issued.
  pub uses_keep_handles : (u : Use) (p : Process types) → (serve_use sdk u p).registry ≡ p.registry
  uses_keep_handles u p = serve_use-Rel (untouched types) u p

  serve-IsTagged : (r : Request types) (p : Process types) → IsTagged p → IsTagged (serve sdk r p)
  unfolding serve
  serve-IsTagged (Request.uses u) p = serve_use-Rel (tagging types) u p
  serve-IsTagged (Request.meanwhile o) p = λ w. w
  serve-IsTagged (Request.handle_free h o) p = helm_handle_free-IsTagged h o p
  serve-IsTagged (Request.chart_load path s o) p = helm_chart_load-IsTagged sdk path s o p
  serve-IsTagged (Request.chart_load_archive bytes n s o) p =
      helm_chart_load_archive-IsTagged sdk bytes n s o p
  serve-IsTagged (Request.chart_free h o) p = helm_chart_free-IsTagged h o p
  serve-IsTagged (Request.config_new json s o) p = helm_config_new-IsTagged sdk json s o p
  serve-IsTagged (Request.config_free h o) p = helm_config_free-IsTagged sdk h o p
  serve-IsTagged (Request.client_new json s o) p = helm_registry_client_new-IsTagged sdk json s o p
  serve-IsTagged (Request.client_free h o) p = helm_registry_client_free-IsTagged h o p
  serve-IsTagged (Request.context_new s o) p = helm_context_new-IsTagged s o p
  serve-IsTagged (Request.context_free h o) p = helm_context_free-IsTagged h o p

  pub serve_all-IsTagged :
      (rs : List (Request types)) (p : Process types) → IsTagged p → IsTagged (serve_all sdk rs p)
  unfolding serve_all
  serve_all-IsTagged [] p w = w
  serve_all-IsTagged (r ∷ rs) p w = serve_all-IsTagged rs (serve sdk r p) (serve-IsTagged r p w)
