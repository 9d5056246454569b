-- ===== src/Wrapper/Show.antt =====
-- ShowChart of pkg/wrapper/chart.go.
pub mod Frame
pub mod Scratch
use Prim.Native.String.{◌++◌}
use helm_c_sdk.Base.{ℕ, Bool, ◌||◌, Option, none, some, String, str_eq, if◌then◌else◌}
use helm_c_sdk.Base.Text.{quote}
use helm_c_sdk.Errors.{coded, code_invalid_arg, code_io, code_chart_load, new_error}
use helm_c_sdk.Result.{Result, ok, err}
use helm_c_sdk.Go.{Go, pure, fail, lift, modify, deferred, ◌>>=◌, ◌>>◌, attempt, with_error_code}
use helm_c_sdk.Options.Config.{no_config_options}
use helm_c_sdk.Options.ChartRef.{ChartRefOptions}
use helm_c_sdk.Options.Show.{ShowOptions}
use helm_c_sdk.Sdk.{Sdk}
use helm_c_sdk.Process.{Config, Object, Process}
use helm_c_sdk.Process.Heap.{alloc_configuration, outer}
use helm_c_sdk.Wrapper.Settings.{private_temp_dir, remove_best_effort}
use helm_c_sdk.Wrapper.Clients.{resolve_client}
use helm_c_sdk.Wrapper.ChartRef.{ResolvedChart, pull_chart_ref}

-- showFormat
unfoldable pub show_format : String → Result String
show_format s =
    if str_eq s "" || str_eq s "all"
    then ok "all"
    else if str_eq s "chart" || str_eq s "values" || str_eq s "readme" || str_eq s "crds"
    then ok s
    else err (
        new_error code_invalid_arg (
          "invalid show format "
          ++ (quote s ++ ": must be \"all\", \"chart\", \"values\", \"readme\" or \"crds\"")))

module _ (sdk : Sdk) where
  open sdk use {types, Chart, Client}

  -- &Config{Cfg: ..., Namespace: "default"}
  abbrev pub show_config : ℕ → Config
  show_config ref = record {
    cfg = ref;
    namespace = "default";
    opts = no_config_options;
    temp_kubeconfig = "";
  }

  -- The path, and the directory that the clean-up removes.
  saved : String → Result String → Go (Process types) (String × Option String)
  saved dir (ok path) = pure (path, some dir)
  saved dir (err e) = do modify (remove_best_effort sdk dir); fail (coded code_io e)

  unfoldable pub fetched :
      String → Result (ResolvedChart Chart) → Go (Process types) (String × Option String)
  unfolding saved
  fetched dir (ok rc) = do path ← attempt (outer (sdk.save_chart rc.chart dir)); saved dir path
  fetched dir (err e) = do modify (remove_best_effort sdk dir); fail e

  unfoldable pub local_or_fetched :
      Option Client
      → String
      → ChartRefOptions
      → Result Bool
      → Go (Process types) (String × Option String)
  local_or_fetched client chart_ref opts (ok is_dir) = pure (chart_ref, none)
  local_or_fetched client chart_ref opts (err e) = do
    ref ←
        alloc_configuration
          (record (sdk.new_configuration sdk.default_handler) { registry_client = client })
    dir ← private_temp_dir sdk "show"
    rc ← attempt (pull_chart_ref sdk (show_config ref) chart_ref opts)
    fetched dir rc

  -- localChartPath
  unfoldable pub local_chart_path :
      Option Client → String → ChartRefOptions → Go (Process types) (String × Option String)
  local_chart_path client chart_ref opts = do
    info ← attempt (outer (sdk.stat chart_ref))
    local_or_fetched client chart_ref opts info

  abbrev clean_up : Option String → Process types → Process types
  clean_up none p = p
  clean_up (some dir) p = remove_best_effort sdk dir p

  unfoldable pub show_at :
      String → Option Client → ShowOptions → String × Option String → Go (Process types) String
  show_at format client opts at =
      deferred
        (with_error_code code_chart_load (
          outer (
            sdk.show_run (record { format = format; devel = opts.devel; registry_client = client })
              at.0)))
        (clean_up at.1)

  -- ShowChart
  unfoldable pub show_chart :
      Option (Object types) → String → ShowOptions → Go (Process types) String
  show_chart client_obj chart_ref opts = do
    format ← lift (show_format opts.format)
    client ← resolve_client sdk client_obj (sdk.is_oci chart_ref) opts.chart_ref_options.plain_http
    at ← local_chart_path client chart_ref opts.chart_ref_options
    show_at format client opts at
