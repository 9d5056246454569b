-- ===== src/Wrapper/ChartData.antt =====
-- pkg/wrapper/chart.go, strvals.go and marshalJSON: charts as data, charts on disk, and the --set family.
-- The bytes of a file are a text; bytes that are no UTF-8 are not modelled.
pub mod Frame
use Prim.Native.String.{◌++◌}
use helm_c_sdk.Base.{Option, none, some, String, List, [], ◌∷◌, str_eq, if◌then◌else◌}
use helm_c_sdk.Errors.{
  Err, wrapped, code_unknown, code_invalid_arg, code_chart_load, code_io, code_values,
}
use helm_c_sdk.Result.{Result, ok, err, or_code, check}
use helm_c_sdk.Go.{Go, pure, lift, gets, ◌>>=◌, ◌>>◌, with_error_code}
use helm_c_sdk.Json.{Json, text, array, object, field, no_fields, Items, no_items, item}
use helm_c_sdk.Sdk.{Sdk}
use helm_c_sdk.Sdk.Structs.{ChartMetadata}
use helm_c_sdk.Process.{Object, Process}
use helm_c_sdk.Process.Heap.{outer}
use helm_c_sdk.Wrapper.Charts.{as_chart}

-- marshalJSON, of what encoding/json makes of the value
unfoldable pub marshal_json : Result Json → Result Json
marshal_json (ok j) = ok j
marshal_json (err e) = or_code code_unknown (err (wrapped "encoding result: " e))

file_items : List (String × String) → Items
file_items [] = no_items
file_items ((name, content) ∷ fs) =
    item (object (field "name" (text name) (field "data" (text content) no_fields))) (file_items fs)

-- filesJSON
unfoldable pub files_json : List (String × String) → Json
unfolding file_items
files_json fs = array (file_items fs)

-- The data of a CRD, which is empty where there is no file.
abbrev crd_data : Option String → String
crd_data none = ""
crd_data (some content) = content

-- The loop of ChartCRDsJSON.
unfoldable pub crd_items : List (String × String × Option String) → Items
crd_items [] = no_items
crd_items ((name, filename, content) ∷ cs) =
    item
      (object (
        field "name" (text name)
          (field "filename" (text filename) (field "data" (text (crd_data content)) no_fields))))
      (crd_items cs)

module _ (sdk : Sdk) where
  open sdk use {types, Chart}

  -- ValidateReleaseName
  unfoldable pub validate_release_name : String → Result (Unit {0})
  validate_release_name name = or_code code_invalid_arg (check (sdk.validate_release_name name))

  viewed :
      {A : Type 0} → (Chart → Go (Process types) A) → Option (Object types) → Go (Process types) A
  viewed view obj = do c ← lift (as_chart sdk obj); view c

  -- ChartMetadataJSON
  unfoldable pub chart_metadata_json : Option (Object types) → Go (Process types) Json
  unfolding viewed
  chart_metadata_json = viewed λ c. gets (λ p. sdk.chart_metadata c p.outside)

  -- ChartValuesJSON
  unfoldable pub chart_values_json : Option (Object types) → Go (Process types) Json
  unfolding viewed
  chart_values_json =
      viewed λ c. do vals ← gets (λ p. sdk.chart_values c p.outside); lift (marshal_json vals)

  -- ChartFilesJSON
  unfoldable pub chart_files_json : Option (Object types) → Go (Process types) Json
  unfolding viewed
  chart_files_json = viewed λ c. gets (λ p. files_json (sdk.chart_files c p.outside))

  -- ChartTemplatesJSON
  unfoldable pub chart_templates_json : Option (Object types) → Go (Process types) Json
  unfolding viewed
  chart_templates_json = viewed λ c. gets (λ p. files_json (sdk.chart_templates c p.outside))

  -- ChartCRDsJSON
  unfoldable pub chart_crds_json : Option (Object types) → Go (Process types) Json
  unfolding viewed
  chart_crds_json = viewed λ c. gets (λ p. array (crd_items (sdk.chart_crds c p.outside)))

  -- ChartSchemaJSON
  unfoldable pub chart_schema_json : Option (Object types) → Go (Process types) String
  unfolding viewed
  chart_schema_json = viewed λ c. gets (λ p.
      if str_eq (sdk.chart_schema c p.outside) "" then "null" else sdk.chart_schema c p.outside)

  metadata_items : List Chart → Process types → Items
  metadata_items [] p = no_items
  metadata_items (d ∷ ds) p = item (sdk.chart_metadata d p.outside) (metadata_items ds p)

  -- ChartDependenciesJSON
  unfoldable pub chart_dependencies_json : Option (Object types) → Go (Process types) Json
  unfolding viewed metadata_items
  chart_dependencies_json = viewed λ c. gets (λ p. array (metadata_items (sdk.subcharts c) p))

  -- SaveChart
  unfoldable pub save_chart : String → Option (Object types) → Go (Process types) String
  unfolding viewed
  save_chart dest_dir = viewed λ c. with_error_code code_io (outer (sdk.save_chart c dest_dir))

  -- SaveChartDir
  unfoldable pub save_chart_dir : String → Option (Object types) → Go (Process types) String
  unfolding viewed
  save_chart_dir dest_dir = viewed λ c. do
    with_error_code code_io (outer (sdk.save_chart_dir c dest_dir))
    pure (dest_dir ++ ("/" ++ sdk.chart_name c))

  -- ExpandChartArchive
  unfoldable pub expand_chart_archive : String → String → Go (Process types) (Unit {0})
  expand_chart_archive dest_dir archive_path =
      with_error_code code_chart_load (outer (sdk.expand_file dest_dir archive_path))

  -- CreateChart
  unfoldable pub create_chart : String → String → Go (Process types) String
  create_chart name dir = do
    lift (or_code code_invalid_arg (check (sdk.validate_metadata_name name)))
    with_error_code code_io (outer (sdk.create_chart name dir))

  -- CreateChartFrom
  unfoldable pub create_chart_from : String → String → String → Go (Process types) String
  create_chart_from name dir starter_dir = do
    lift (or_code code_invalid_arg (check (sdk.validate_metadata_name name)))
    with_error_code code_io (
        outer (
          sdk.create_chart_from
            (record { name = name; api_version = "v2"; version = "0.1.0"; app_version = "0.1.0" })
            dir starter_dir))
    pure (dir ++ ("/" ++ name))

  -- ChartDigest
  unfoldable pub chart_digest : String → Go (Process types) String
  chart_digest path = do
    sum ← with_error_code code_io (outer (sdk.digest_file path))
    pure ("sha256:" ++ sum)

  parsed_json : Result (Result Json) → Go (Process types) Json
  parsed_json r = do vals ← lift (or_code code_values r); lift (marshal_json vals)

  -- ValuesFromYAML
  unfoldable pub values_from_yaml : String → Go (Process types) Json
  unfolding parsed_json
  values_from_yaml yaml = parsed_json (sdk.read_values yaml)

  -- ParseSetString
  unfoldable pub parse_set_string : String → Go (Process types) Json
  unfolding parsed_json
  parse_set_string s = parsed_json (sdk.strvals_parse s)

  -- ParseSetStringValues
  unfoldable pub parse_set_string_values : String → Go (Process types) Json
  unfolding parsed_json
  parse_set_string_values s = parsed_json (sdk.strvals_parse_string s)

  -- ParseSetJSON
  unfoldable pub parse_set_json : String → Go (Process types) Json
  unfolding parsed_json
  parse_set_json s = parsed_json (sdk.strvals_parse_json s)

  -- ParseSetLiteral
  unfoldable pub parse_set_literal : String → Go (Process types) Json
  unfolding parsed_json
  parse_set_literal s = parsed_json (sdk.strvals_parse_literal s)

  -- ParseSetFile
  unfoldable pub parse_set_file : String → Go (Process types) Json
  parse_set_file s = do
    vals ← with_error_code code_values (outer (sdk.strvals_parse_file s))
    lift (marshal_json vals)
