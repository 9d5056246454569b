-- ===== src/Capi/ChartData/Frame.antt =====
-- capi: the exports that read, write and make charts, and the --set family, respect every relation.
use helm_c_sdk.Base.{ℕ, Option, String}
use helm_c_sdk.Go.{Go}
use helm_c_sdk.Handles.{type_chart}
use helm_c_sdk.Json.{Json}
use helm_c_sdk.Sdk.{Sdk}
use helm_c_sdk.Process.{Object, Process}
use helm_c_sdk.Process.Respects.{Frame, Respects, lifted, bound}
use helm_c_sdk.Wrapper.ChartData.Frame.{
  chart_metadata-Respects, chart_values-Respects, chart_files-Respects, chart_templates-Respects,
  chart_crds-Respects, chart_schema-Respects, chart_dependencies-Respects, save_chart-Respects,
  save_chart_dir-Respects, expand-Respects, create_chart-Respects, create_chart_from-Respects,
  chart_digest-Respects, values_from_yaml-Respects, parse_set_string-Respects,
  parse_set_string_values-Respects, parse_set_json-Respects, parse_set_literal-Respects,
  parse_set_file-Respects,
}
use helm_c_sdk.Capi.Boundary.{Slot, CString, ErrorOut}
use helm_c_sdk.Capi.Boundary.Frame.{string_result-Rel, status_result-Rel}
use helm_c_sdk.Capi.Registry.Frame.{get-Respects}
use helm_c_sdk.Capi.Actions.{JsonOut}
use helm_c_sdk.Capi.ChartData.{
  chart_handle_shim, text_body, strvals_shim, helm_release_name_validate, helm_chart_metadata,
  helm_chart_values, helm_chart_files, helm_chart_templates, helm_chart_crds,
  helm_chart_dependencies, helm_chart_schema, helm_chart_save, helm_chart_save_dir,
  helm_chart_create, helm_chart_create_from, helm_chart_expand, helm_chart_digest,
  helm_values_from_yaml, helm_strvals_parse, helm_strvals_parse_string, helm_strvals_parse_json,
  helm_strvals_parse_literal, helm_strvals_parse_file,
}

module _ (sdk : Sdk) (F : Frame sdk.types) where
  open sdk use {types}

  pub shim-Rel :
      {A : Type 0} (h : ℕ) (s : Slot (Option A)) (o : ErrorOut)
      (run : Option (Object types) → Go (Process types) A) (p : Process types)
      → ((obj : Option (Object types)) → Respects F (run obj))
      → F.Rel p (chart_handle_shim sdk h s o run p).1
  unfolding chart_handle_shim
  shim-Rel h s o run p k =
      string_result-Rel F s o _ p (bound F _ _ (get-Respects F h type_chart) λ obj. k _)

  body-Respects :
      {A : Type 0} (names : String) (s : CString) (run : String → Go (Process types) A)
      → ((s : String) → Respects F (run s))
      → Respects F (text_body sdk names s run)
  unfolding text_body
  body-Respects names s run k = bound F _ _ (lifted F _) λ given. k _

  strvals-Rel :
      (s : CString) (out : JsonOut) (o : ErrorOut) (parse : String → Go (Process types) Json)
      (p : Process types)
      → ((s : String) → Respects F (parse s))
      → F.Rel p (strvals_shim sdk s out o parse p).1
  unfolding strvals_shim
  strvals-Rel s out o parse p k = string_result-Rel F out o _ p (body-Respects "s" s parse k)

  pub helm_release_name_validate-Rel :
      (name : CString) (o : ErrorOut) (p : Process types)
      → F.Rel p (helm_release_name_validate sdk name o p).1
  unfolding helm_release_name_validate
  helm_release_name_validate-Rel name o p =
      status_result-Rel F o _ p (bound F _ _ (lifted F _) λ given. lifted F _)

  pub helm_chart_metadata-Rel :
      (h : ℕ) (s : JsonOut) (o : ErrorOut) (p : Process types)
      → F.Rel p (helm_chart_metadata sdk h s o p).1
  unfolding helm_chart_metadata
  helm_chart_metadata-Rel h s o p = shim-Rel h s o _ p (chart_metadata-Respects sdk F)

  pub helm_chart_values-Rel :
      (h : ℕ) (s : JsonOut) (o : ErrorOut) (p : Process types)
      → F.Rel p (helm_chart_values sdk h s o p).1
  unfolding helm_chart_values
  helm_chart_values-Rel h s o p = shim-Rel h s o _ p (chart_values-Respects sdk F)

  pub helm_chart_files-Rel :
      (h : ℕ) (s : JsonOut) (o : ErrorOut) (p : Process types)
      → F.Rel p (helm_chart_files sdk h s o p).1
  unfolding helm_chart_files
  helm_chart_files-Rel h s o p = shim-Rel h s o _ p (chart_files-Respects sdk F)

  pub helm_chart_templates-Rel :
      (h : ℕ) (s : JsonOut) (o : ErrorOut) (p : Process types)
      → F.Rel p (helm_chart_templates sdk h s o p).1
  unfolding helm_chart_templates
  helm_chart_templates-Rel h s o p = shim-Rel h s o _ p (chart_templates-Respects sdk F)

  pub helm_chart_crds-Rel :
      (h : ℕ) (s : JsonOut) (o : ErrorOut) (p : Process types)
      → F.Rel p (helm_chart_crds sdk h s o p).1
  unfolding helm_chart_crds
  helm_chart_crds-Rel h s o p = shim-Rel h s o _ p (chart_crds-Respects sdk F)

  pub helm_chart_dependencies-Rel :
      (h : ℕ) (s : JsonOut) (o : ErrorOut) (p : Process types)
      → F.Rel p (helm_chart_dependencies sdk h s o p).1
  unfolding helm_chart_dependencies
  helm_chart_dependencies-Rel h s o p = shim-Rel h s o _ p (chart_dependencies-Respects sdk F)

  pub helm_chart_schema-Rel :
      (h : ℕ) (s : Slot CString) (o : ErrorOut) (p : Process types)
      → F.Rel p (helm_chart_schema sdk h s o p).1
  unfolding helm_chart_schema
  helm_chart_schema-Rel h s o p = shim-Rel h s o _ p (chart_schema-Respects sdk F)

  pub helm_chart_save-Rel :
      (h : ℕ) (dir : CString) (s : Slot CString) (o : ErrorOut) (p : Process types)
      → F.Rel p (helm_chart_save sdk h dir s o p).1
  unfolding helm_chart_save
  helm_chart_save-Rel h dir s o p =
      shim-Rel h s o _ p λ obj. bound F _ _ (lifted F _) λ given. save_chart-Respects sdk F _ obj

  pub helm_chart_save_dir-Rel :
      (h : ℕ) (dir : CString) (s : Slot CString) (o : ErrorOut) (p : Process types)
      → F.Rel p (helm_chart_save_dir sdk h dir s o p).1
  unfolding helm_chart_save_dir
  helm_chart_save_dir-Rel h dir s o p =
      shim-Rel h s o _ p
        λ obj. bound F _ _ (lifted F _) λ given. save_chart_dir-Respects sdk F _ obj

  pub helm_chart_create-Rel :
      (name dir : CString) (s : Slot CString) (o : ErrorOut) (p : Process types)
      → F.Rel p (helm_chart_create sdk name dir s o p).1
  unfolding helm_chart_create
  helm_chart_create-Rel name dir s o p =
      string_result-Rel F s o _ p
        (bound F _ _ (lifted F _) λ given. create_chart-Respects sdk F _ _)

  pub helm_chart_create_from-Rel :
      (name dir starter : CString) (s : Slot CString) (o : ErrorOut) (p : Process types)
      → F.Rel p (helm_chart_create_from sdk name dir starter s o p).1
  unfolding helm_chart_create_from
  helm_chart_create_from-Rel name dir starter s o p =
      string_result-Rel F s o _ p
        (bound F _ _ (lifted F _) λ given. create_chart_from-Respects sdk F _ _ _)

  pub helm_chart_expand-Rel :
      (dir path : CString) (o : ErrorOut) (p : Process types)
      → F.Rel p (helm_chart_expand sdk dir path o p).1
  unfolding helm_chart_expand
  helm_chart_expand-Rel dir path o p =
      status_result-Rel F o _ p (bound F _ _ (lifted F _) λ given. expand-Respects sdk F _ _)

  pub helm_chart_digest-Rel :
      (path : CString) (s : Slot CString) (o : ErrorOut) (p : Process types)
      → F.Rel p (helm_chart_digest sdk path s o p).1
  unfolding helm_chart_digest
  helm_chart_digest-Rel path s o p =
      string_result-Rel F s o _ p (body-Respects _ path _ (chart_digest-Respects sdk F))

  pub helm_values_from_yaml-Rel :
      (yaml : CString) (s : JsonOut) (o : ErrorOut) (p : Process types)
      → F.Rel p (helm_values_from_yaml sdk yaml s o p).1
  unfolding helm_values_from_yaml
  helm_values_from_yaml-Rel yaml s o p =
      string_result-Rel F s o _ p (body-Respects _ yaml _ (values_from_yaml-Respects sdk F))

  pub helm_strvals_parse-Rel :
      (s : CString) (out : JsonOut) (o : ErrorOut) (p : Process types)
      → F.Rel p (helm_strvals_parse sdk s out o p).1
  unfolding helm_strvals_parse
  helm_strvals_parse-Rel s out o p = strvals-Rel s out o _ p (parse_set_string-Respects sdk F)

  pub helm_strvals_parse_string-Rel :
      (s : CString) (out : JsonOut) (o : ErrorOut) (p : Process types)
      → F.Rel p (helm_strvals_parse_string sdk s out o p).1
  unfolding helm_strvals_parse_string
  helm_strvals_parse_string-Rel s out o p =
      strvals-Rel s out o _ p (parse_set_string_values-Respects sdk F)

  pub helm_strvals_parse_json-Rel :
      (s : CString) (out : JsonOut) (o : ErrorOut) (p : Process types)
      → F.Rel p (helm_strvals_parse_json sdk s out o p).1
  unfolding helm_strvals_parse_json
  helm_strvals_parse_json-Rel s out o p = strvals-Rel s out o _ p (parse_set_json-Respects sdk F)

  pub helm_strvals_parse_literal-Rel :
      (s : CString) (out : JsonOut) (o : ErrorOut) (p : Process types)
      → F.Rel p (helm_strvals_parse_literal sdk s out o p).1
  unfolding helm_strvals_parse_literal
  helm_strvals_parse_literal-Rel s out o p =
      strvals-Rel s out o _ p (parse_set_literal-Respects sdk F)

  pub helm_strvals_parse_file-Rel :
      (s : CString) (out : JsonOut) (o : ErrorOut) (p : Process types)
      → F.Rel p (helm_strvals_parse_file sdk s out o p).1
  unfolding helm_strvals_parse_file
  helm_strvals_parse_file-Rel s out o p = strvals-Rel s out o _ p (parse_set_file-Respects sdk F)
