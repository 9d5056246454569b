-- ===== src/Wrapper/ChartData/Frame.antt =====
-- pkg/wrapper/chart.go and strvals.go: what reading, writing and making charts respects.
use helm_c_sdk.Base.{Option, String}
use helm_c_sdk.Result.{Result}
use helm_c_sdk.Go.{Go}
use helm_c_sdk.Json.{Json}
use helm_c_sdk.Sdk.{Sdk}
use helm_c_sdk.Process.{Object, Process}
use helm_c_sdk.Process.Respects.{Frame, Respects, returned, lifted, looked, outside_or, bound}
use helm_c_sdk.Wrapper.ChartData.{
  viewed, parsed_json, chart_metadata_json, chart_values_json, chart_files_json,
  chart_templates_json, chart_crds_json, chart_schema_json, chart_dependencies_json, save_chart,
  save_chart_dir, expand_chart_archive, create_chart, create_chart_from, chart_digest,
  values_from_yaml, parse_set_string, parse_set_string_values, parse_set_json, parse_set_literal,
  parse_set_file,
}

module _ (sdk : Sdk) (F : Frame sdk.types) where
  open sdk use {types, Chart}

  viewed-Respects :
      {A : Type 0} (view : Chart → Go (Process types) A) (obj : Option (Object types))
      → ((c : Chart) → Respects F (view c))
      → Respects F (viewed sdk view obj)
  unfolding viewed
  viewed-Respects view obj k = bound F _ _ (lifted F _) k

  parsed-Respects : (r : Result (Result Json)) → Respects F (parsed_json sdk r)
  unfolding parsed_json
  parsed-Respects r = bound F _ _ (lifted F _) λ vals. lifted F _

  pub chart_metadata-Respects :
      (obj : Option (Object types)) → Respects F (chart_metadata_json sdk obj)
  unfolding chart_metadata_json
  chart_metadata-Respects obj = viewed-Respects _ obj λ c. looked F _

  pub chart_files-Respects : (obj : Option (Object types)) → Respects F (chart_files_json sdk obj)
  unfolding chart_files_json
  chart_files-Respects obj = viewed-Respects _ obj λ c. looked F _

  pub chart_templates-Respects :
      (obj : Option (Object types)) → Respects F (chart_templates_json sdk obj)
  unfolding chart_templates_json
  chart_templates-Respects obj = viewed-Respects _ obj λ c. looked F _

  pub chart_crds-Respects : (obj : Option (Object types)) → Respects F (chart_crds_json sdk obj)
  unfolding chart_crds_json
  chart_crds-Respects obj = viewed-Respects _ obj λ c. looked F _

  pub chart_schema-Respects : (obj : Option (Object types)) → Respects F (chart_schema_json sdk obj)
  unfolding chart_schema_json
  chart_schema-Respects obj = viewed-Respects _ obj λ c. looked F _

  pub chart_dependencies-Respects :
      (obj : Option (Object types)) → Respects F (chart_dependencies_json sdk obj)
  unfolding chart_dependencies_json
  chart_dependencies-Respects obj = viewed-Respects _ obj λ c. looked F _

  pub chart_values-Respects : (obj : Option (Object types)) → Respects F (chart_values_json sdk obj)
  unfolding chart_values_json
  chart_values-Respects obj = viewed-Respects _ obj λ c. bound F _ _ (looked F _) λ vals. lifted F _

  pub save_chart-Respects :
      (dir : String) (obj : Option (Object types)) → Respects F (save_chart sdk dir obj)
  unfolding save_chart
  save_chart-Respects dir obj = viewed-Respects _ obj λ c. outside_or F _ _

  pub save_chart_dir-Respects :
      (dir : String) (obj : Option (Object types)) → Respects F (save_chart_dir sdk dir obj)
  unfolding save_chart_dir
  save_chart_dir-Respects dir obj =
      viewed-Respects _ obj λ c. bound F _ _ (outside_or F _ _) λ done. returned F _

  pub expand-Respects : (dir path : String) → Respects F (expand_chart_archive sdk dir path)
  unfolding expand_chart_archive
  expand-Respects dir path = outside_or F _ _

  pub create_chart-Respects : (name dir : String) → Respects F (create_chart sdk name dir)
  unfolding create_chart
  create_chart-Respects name dir = bound F _ _ (lifted F _) λ valid. outside_or F _ _

  pub create_chart_from-Respects :
      (name dir starter : String) → Respects F (create_chart_from sdk name dir starter)
  unfolding create_chart_from
  create_chart_from-Respects name dir starter =
      bound F _ _ (lifted F _) λ valid. bound F _ _ (outside_or F _ _) λ done. returned F _

  pub chart_digest-Respects : (path : String) → Respects F (chart_digest sdk path)
  unfolding chart_digest
  chart_digest-Respects path = bound F _ _ (outside_or F _ _) λ sum. returned F _

  pub values_from_yaml-Respects : (s : String) → Respects F (values_from_yaml sdk s)
  unfolding values_from_yaml
  values_from_yaml-Respects s = parsed-Respects _

  pub parse_set_string-Respects : (s : String) → Respects F (parse_set_string sdk s)
  unfolding parse_set_string
  parse_set_string-Respects s = parsed-Respects _

  pub parse_set_string_values-Respects : (s : String) → Respects F (parse_set_string_values sdk s)
  unfolding parse_set_string_values
  parse_set_string_values-Respects s = parsed-Respects _

  pub parse_set_json-Respects : (s : String) → Respects F (parse_set_json sdk s)
  unfolding parse_set_json
  parse_set_json-Respects s = parsed-Respects _

  pub parse_set_literal-Respects : (s : String) → Respects F (parse_set_literal sdk s)
  unfolding parse_set_literal
  parse_set_literal-Respects s = parsed-Respects _

  pub parse_set_file-Respects : (s : String) → Respects F (parse_set_file sdk s)
  unfolding parse_set_file
  parse_set_file-Respects s = bound F _ _ (outside_or F _ _) λ vals. lifted F _
