-- ===== src/Capi/Charts.antt =====
-- capi/chart.go, capi/dependency.go and the loading of capi/extra.go: charts and chart directories.
pub mod Archive
pub mod Frame
use helm_c_sdk.Base.{
  ℕ, suc, ◌-◌, ◌%◌, ◌^◌, Bool, true, false, ◌||◌, Option, none, some, String, List, [], ◌∷◌, ltb,
  ◌==◌, take, if◌then◌else◌,
}
use helm_c_sdk.Base.Int.{ℤ, pos, negsuc}
use helm_c_sdk.Errors.{code_invalid_arg, code_chart_load, new_error}
use helm_c_sdk.Go.{Outcome, returns, panics, Go, pure, fail, lift, ◌>>=◌, ◌>>◌, with_error_code}
use helm_c_sdk.Handles.{type_chart}
use helm_c_sdk.Json.{Json, Document}
use helm_c_sdk.Options.Dependency.{DependencyOptions, parse_dependency_options}
use helm_c_sdk.Sdk.{Sdk}
use helm_c_sdk.Process.{Object, Process}
use helm_c_sdk.Process.Heap.{outer}
use helm_c_sdk.Wrapper.Charts.{load_chart}
use helm_c_sdk.Wrapper.Dependencies.{dependency_update, dependency_build}
use helm_c_sdk.Wrapper.Dependencies.Status.{dependency_list}
use helm_c_sdk.Capi.Boundary.{
  Slot, CString, ErrorOut, Reply, go_string, go_json, require_args, string_result, handle_result,
  status_result,
}
use helm_c_sdk.Capi.Registry.{registry_put}
use helm_c_sdk.Capi.Actions.{JsonOut}

-- int32(n) of a uint64
unfoldable pub int32_of : ℕ → ℤ
int32_of n = let r = n % 2 ^ 32 in if ltb r (2 ^ 31) then pos r else negsuc (2 ^ 32 - 1 - r)

-- archiveLength
unfoldable pub archive_length : ℕ → ℤ × Bool
archive_length length =
    if length == 0 || ltb (2 ^ 31 - 1) length then (pos 0, false) else (int32_of length, true)

-- C.GoBytes, on the caller's memory from the pointer on; a buffer that is shorter than its stated
-- length is not modelled.
unfoldable pub go_bytes : {S : Type 0} → List ℕ → ℤ → Go S (List ℕ)
go_bytes bytes (pos n) s = (returns (take n bytes), s)
go_bytes bytes (negsuc n) s = (panics "gobytes: length out of range", s)

module _ (sdk : Sdk) where
  open sdk use {types, Chart}

  -- LoadChartArchive
  unfoldable pub load_chart_archive : List ℕ → Go (Process types) Chart
  load_chart_archive bytes = with_error_code code_chart_load (outer (sdk.load_archive bytes))

  unfoldable pub put_chart : Chart → Go (Process types) ℕ
  put_chart c = registry_put type_chart (Object.chart c)

  unfoldable pub load_bytes : List ℕ → ℤ × Bool → Go (Process types) ℕ
  unfolding put_chart
  load_bytes bytes (n, false) = fail (new_error code_invalid_arg "length must be 1..2^31-1")
  load_bytes bytes (n, true) = do buf ← go_bytes bytes n; c ← load_chart_archive buf; put_chart c

  unfoldable pub archive_body : Option (List ℕ) → ℕ → Go (Process types) ℕ
  unfolding load_bytes
  archive_body none length = fail (new_error code_invalid_arg "data must not be NULL")
  archive_body (some bytes) length = load_bytes bytes (archive_length length)

  -- helm_chart_load_archive
  unfoldable pub helm_chart_load_archive :
      Option (List ℕ) → ℕ → Slot ℕ → ErrorOut → Process types → Reply (Slot ℕ) × Process types
  unfolding archive_body
  helm_chart_load_archive bytes length out error_out =
      handle_result out error_out (archive_body bytes length)

  load_body : CString → Go (Process types) ℕ
  unfolding put_chart
  load_body path = do
    lift (require_args "path" (path ∷ []))
    c ← load_chart sdk (go_string path)
    put_chart c

  -- helm_chart_load
  unfoldable pub helm_chart_load :
      CString → Slot ℕ → ErrorOut → Process types → Reply (Slot ℕ) × Process types
  unfolding load_body
  helm_chart_load path out error_out = handle_result out error_out (load_body path)

  dir_body :
      CString
      → Option Document
      → (String → DependencyOptions → Go (Process types) (Unit {0}))
      → Go (Process types) (Unit {0})
  dir_body chart_dir json run = do
    lift (require_args "chart_dir" (chart_dir ∷ []))
    opts ← lift (parse_dependency_options (go_json json))
    run (go_string chart_dir) opts

  -- chartDirAction
  unfoldable pub chart_dir_action :
      CString
      → Option Document
      → ErrorOut
      → (String → DependencyOptions → Go (Process types) (Unit {0}))
      → Process types
      → Reply (Unit {0}) × Process types
  unfolding dir_body
  chart_dir_action chart_dir json error_out run =
      status_result error_out (dir_body chart_dir json run)

  -- helm_dependency_update
  unfoldable pub helm_dependency_update :
      CString → Option Document → ErrorOut → Process types → Reply (Unit {0}) × Process types
  helm_dependency_update chart_dir json error_out =
      chart_dir_action chart_dir json error_out (dependency_update sdk)

  -- helm_dependency_build
  unfoldable pub helm_dependency_build :
      CString → Option Document → ErrorOut → Process types → Reply (Unit {0}) × Process types
  helm_dependency_build chart_dir json error_out =
      chart_dir_action chart_dir json error_out (dependency_build sdk)

  list_body : CString → Go (Process types) Json
  list_body chart_dir = do
    lift (require_args "chart_dir" (chart_dir ∷ []))
    dependency_list sdk (go_string chart_dir)

  -- helm_dependency_list
  unfoldable pub helm_dependency_list :
      CString → JsonOut → ErrorOut → Process types → Reply JsonOut × Process types
  unfolding list_body
  helm_dependency_list chart_dir out error_out = string_result out error_out (list_body chart_dir)
