-- ===== src/Capi/ChartData.antt =====
-- capi/chart.go, strvals.go and the chart exports of extra.go: charts as data, charts on disk, and the
-- --set family.
pub mod Frame
use helm_c_sdk.Base.{ℕ, Option, some, String, [], ◌∷◌}
use helm_c_sdk.Go.{Go, lift, ◌>>=◌, ◌>>◌}
use helm_c_sdk.Handles.{type_chart}
use helm_c_sdk.Json.{Json}
use helm_c_sdk.Sdk.{Sdk}
use helm_c_sdk.Process.{Object, Process}
use helm_c_sdk.Wrapper.ChartData.{
  validate_release_name, chart_metadata_json, chart_values_json, chart_files_json,
  chart_templates_json, chart_crds_json, chart_schema_json, chart_dependencies_json, save_chart,
  save_chart_dir, expand_chart_archive, create_chart, create_chart_from, chart_digest,
  values_from_yaml, parse_set_string, parse_set_string_values, parse_set_json, parse_set_literal,
  parse_set_file,
}
use helm_c_sdk.Capi.Boundary.{
  Slot, CString, ErrorOut, Reply, go_string, require_args, string_result, status_result,
}
use helm_c_sdk.Capi.Registry.{registry_get}
use helm_c_sdk.Capi.Actions.{JsonOut}

module _ (sdk : Sdk) where
  open sdk use {types}

  name_body : CString → Go (Process types) (Unit {0})
  name_body name = do
    lift (require_args "name" (name ∷ []))
    lift (validate_release_name sdk (go_string name))

  -- helm_release_name_validate
  unfoldable pub helm_release_name_validate :
      CString → ErrorOut → Process types → Reply (Unit {0}) × Process types
  unfolding name_body
  helm_release_name_validate name error_out = status_result error_out (name_body name)

  chart_body :
      {A : Type 0} → ℕ → (Option (Object types) → Go (Process types) A) → Go (Process types) A
  chart_body h run = do obj ← registry_get h type_chart; run (some obj)

  -- chartHandleShim
  unfoldable pub chart_handle_shim :
      {A : Type 0}
      → ℕ
      → Slot (Option A)
      → ErrorOut
      → (Option (Object types) → Go (Process types) A)
      → Process types
      → Reply (Slot (Option A)) × Process types
  unfolding chart_body
  chart_handle_shim h out error_out run = string_result out error_out (chart_body h run)

  -- helm_chart_metadata
  unfoldable pub helm_chart_metadata :
      ℕ → JsonOut → ErrorOut → Process types → Reply JsonOut × Process types
  helm_chart_metadata h out error_out = chart_handle_shim h out error_out (chart_metadata_json sdk)

  -- helm_chart_values
  unfoldable pub helm_chart_values :
      ℕ → JsonOut → ErrorOut → Process types → Reply JsonOut × Process types
  helm_chart_values h out error_out = chart_handle_shim h out error_out (chart_values_json sdk)

  -- helm_chart_files
  unfoldable pub helm_chart_files :
      ℕ → JsonOut → ErrorOut → Process types → Reply JsonOut × Process types
  helm_chart_files h out error_out = chart_handle_shim h out error_out (chart_files_json sdk)

  -- helm_chart_templates
  unfoldable pub helm_chart_templates :
      ℕ → JsonOut → ErrorOut → Process types → Reply JsonOut × Process types
  helm_chart_templates h out error_out =
      chart_handle_shim h out error_out (chart_templates_json sdk)

  -- helm_chart_crds
  unfoldable pub helm_chart_crds :
      ℕ → JsonOut → ErrorOut → Process types → Reply JsonOut × Process types
  helm_chart_crds h out error_out = chart_handle_shim h out error_out (chart_crds_json sdk)

  -- helm_chart_dependencies
  unfoldable pub helm_chart_dependencies :
      ℕ → JsonOut → ErrorOut → Process types → Reply JsonOut × Process types
  helm_chart_dependencies h out error_out =
      chart_handle_shim h out error_out (chart_dependencies_json sdk)

  -- helm_chart_schema
  unfoldable pub helm_chart_schema :
      ℕ → Slot CString → ErrorOut → Process types → Reply (Slot CString) × Process types
  helm_chart_schema h out error_out = chart_handle_shim h out error_out (chart_schema_json sdk)

  dest_body :
      CString
      → (String → Option (Object types) → Go (Process types) String)
      → Option (Object types)
      → Go (Process types) String
  dest_body dest_dir save obj = do
    lift (require_args "dest_dir" (dest_dir ∷ []))
    save (go_string dest_dir) obj

  -- helm_chart_save
  unfoldable pub helm_chart_save :
      ℕ → CString → Slot CString → ErrorOut → Process types → Reply (Slot CString) × Process types
  unfolding dest_body
  helm_chart_save h dest_dir out error_out =
      chart_handle_shim h out error_out (dest_body dest_dir (save_chart sdk))

  -- helm_chart_save_dir
  unfoldable pub helm_chart_save_dir :
      ℕ → CString → Slot CString → ErrorOut → Process types → Reply (Slot CString) × Process types
  unfolding dest_body
  helm_chart_save_dir h dest_dir out error_out =
      chart_handle_shim h out error_out (dest_body dest_dir (save_chart_dir sdk))

  create_body : CString → CString → Go (Process types) String
  create_body name dir = do
    lift (require_args "name and dir" (name ∷ dir ∷ []))
    create_chart sdk (go_string name) (go_string dir)

  -- helm_chart_create
  unfoldable pub helm_chart_create :
      CString
      → CString
      → Slot CString
      → ErrorOut
      → Process types
      → Reply (Slot CString) × Process types
  unfolding create_body
  helm_chart_create name dir out error_out = string_result out error_out (create_body name dir)

  starter_body : CString → CString → CString → Go (Process types) String
  starter_body name dir starter_dir = do
    lift (require_args "name, dir and starter_dir" (name ∷ dir ∷ starter_dir ∷ []))
    create_chart_from sdk (go_string name) (go_string dir) (go_string starter_dir)

  -- helm_chart_create_from
  unfoldable pub helm_chart_create_from :
      CString
      → CString
      → CString
      → Slot CString
      → ErrorOut
      → Process types
      → Reply (Slot CString) × Process types
  unfolding starter_body
  helm_chart_create_from name dir starter_dir out error_out =
      string_result out error_out (starter_body name dir starter_dir)

  expand_body : CString → CString → Go (Process types) (Unit {0})
  expand_body dest_dir archive_path = do
    lift (require_args "dest_dir and archive_path" (dest_dir ∷ archive_path ∷ []))
    expand_chart_archive sdk (go_string dest_dir) (go_string archive_path)

  -- helm_chart_expand
  unfoldable pub helm_chart_expand :
      CString → CString → ErrorOut → Process types → Reply (Unit {0}) × Process types
  unfolding expand_body
  helm_chart_expand dest_dir archive_path error_out =
      status_result error_out (expand_body dest_dir archive_path)

  -- An export of one text, named `names` where it is missing.
  text_body :
      {A : Type 0} → String → CString → (String → Go (Process types) A) → Go (Process types) A
  text_body names s run = do lift (require_args names (s ∷ [])); run (go_string s)

  -- helm_chart_digest
  unfoldable pub helm_chart_digest :
      CString → Slot CString → ErrorOut → Process types → Reply (Slot CString) × Process types
  unfolding text_body
  helm_chart_digest path out error_out =
      string_result out error_out (text_body "archive_path" path (chart_digest sdk))

  -- helm_values_from_yaml
  unfoldable pub helm_values_from_yaml :
      CString → JsonOut → ErrorOut → Process types → Reply JsonOut × Process types
  unfolding text_body
  helm_values_from_yaml yaml out error_out =
      string_result out error_out (text_body "yaml" yaml (values_from_yaml sdk))

  -- strvalsShim
  unfoldable pub strvals_shim :
      CString
      → JsonOut
      → ErrorOut
      → (String → Go (Process types) Json)
      → Process types
      → Reply JsonOut × Process types
  unfolding text_body
  strvals_shim s out error_out parse = string_result out error_out (text_body "s" s parse)

  -- helm_strvals_parse
  unfoldable pub helm_strvals_parse :
      CString → JsonOut → ErrorOut → Process types → Reply JsonOut × Process types
  helm_strvals_parse s out error_out = strvals_shim s out error_out (parse_set_string sdk)

  -- helm_strvals_parse_string
  unfoldable pub helm_strvals_parse_string :
      CString → JsonOut → ErrorOut → Process types → Reply JsonOut × Process types
  helm_strvals_parse_string s out error_out =
      strvals_shim s out error_out (parse_set_string_values sdk)

  -- helm_strvals_parse_json
  unfoldable pub helm_strvals_parse_json :
      CString → JsonOut → ErrorOut → Process types → Reply JsonOut × Process types
  helm_strvals_parse_json s out error_out = strvals_shim s out error_out (parse_set_json sdk)

  -- helm_strvals_parse_literal
  unfoldable pub helm_strvals_parse_literal :
      CString → JsonOut → ErrorOut → Process types → Reply JsonOut × Process types
  helm_strvals_parse_literal s out error_out = strvals_shim s out error_out (parse_set_literal sdk)

  -- helm_strvals_parse_file
  unfoldable pub helm_strvals_parse_file :
      CString → JsonOut → ErrorOut → Process types → Reply JsonOut × Process types
  helm_strvals_parse_file s out error_out = strvals_shim s out error_out (parse_set_file sdk)
