-- ===== src/Wrapper/ChartRef.antt =====
-- pkg/wrapper/actions.go and pkg/wrapper/install.go: which chart an install or an upgrade works on
-- (chartForAction, pullChartRef, ensureDependencies, chartForInstall), and the rendering options.
pub mod Frame
use Prim.Native.String.{◌++◌}
use helm_c_sdk.Base.{
  ℕ, Bool, true, false, not, ◌&&◌, ◌||◌, Option, none, some, String, List, [], ◌∷◌, str_eq,
  is_empty, if◌then◌else◌,
}
use helm_c_sdk.Base.Text.{quote}
use helm_c_sdk.Errors.{
  Err, coded, wrapped, new_error, code_invalid_arg, code_chart_load, code_chart_invalid,
}
use helm_c_sdk.Result.{Result, ok, err, or_code}
use helm_c_sdk.Go.{Go, pure, fail, lift, gets, ◌>>=◌, ◌>>◌, attempt, deferred, with_error_code}
use helm_c_sdk.Options.ChartRef.{ChartRefOptions}
use helm_c_sdk.Options.Transfer.{PullOptions, no_pull_options}
use helm_c_sdk.Options.Dependency.{DependencyOptions, no_dependency_options}
use helm_c_sdk.Sdk.{Sdk}
use helm_c_sdk.Process.{Config, Object, Process}
use helm_c_sdk.Process.Heap.{deref_configuration, outer}
use helm_c_sdk.Wrapper.Settings.{path_join, private_temp_dir, remove_best_effort}
use helm_c_sdk.Wrapper.Charts.{as_chart, load_chart}
use helm_c_sdk.Wrapper.Clients.{pull_chart}
use helm_c_sdk.Wrapper.Dependencies.{dependency_update}

-- resolvedChart
pub record ResolvedChart (Chart : Type 0) : Type 0 where
  pub chart : Chart
  pub dir : String

-- The PullOptions of pullChartRef.
abbrev pull_options_of : String → ChartRefOptions → PullOptions
pull_options_of dir opts = record no_pull_options {
  dest_dir = dir;
  version = opts.chart_version;
  repo_url = opts.chart_repo_url;
  plain_http = opts.plain_http;
  insecure_skip_tls_verify = opts.insecure_skip_tls_verify;
  username = opts.username;
  password = opts.password;
  ca_file = opts.ca_file;
  cert_file = opts.cert_file;
  key_file = opts.key_file;
  verify = opts.verify;
  keyring = opts.keyring;
  pass_credentials_all = opts.pass_credentials_all;
  devel = opts.devel;
}

module _ (sdk : Sdk) where
  open sdk use {types, Chart, Client}

  abbrev pub client_object : Option Client → Option (Object types)
  client_object none = none
  client_object (some c) = some (Object.client c)

  no_archive : String → Go (Process types) (ResolvedChart Chart)
  no_archive chart_ref =
      fail (new_error code_chart_load ("pulling " ++ (quote chart_ref ++ " produced no archive")))

  load_entry : String → String → Result (List String) → Go (Process types) (ResolvedChart Chart)
  unfolding no_archive
  load_entry chart_ref dir (err e) = no_archive chart_ref
  load_entry chart_ref dir (ok []) = no_archive chart_ref
  load_entry chart_ref dir (ok (name ∷ names)) = do
    c ← load_chart sdk (path_join dir name)
    pure (record { chart = c; dir = "" })

  pull_into : Config → String → ChartRefOptions → String → Go (Process types) (ResolvedChart Chart)
  unfolding load_entry
  pull_into cfg chart_ref opts dir = do
    shared ← deref_configuration cfg.cfg
    out ←
        with_error_code code_chart_load (
          pull_chart sdk (client_object shared.registry_client) chart_ref
            (pull_options_of dir opts))
    entries ← attempt (outer (sdk.read_dir dir))
    load_entry chart_ref dir entries

  pull_scratch : Config → String → ChartRefOptions → Go (Process types) (ResolvedChart Chart)
  unfolding pull_into
  pull_scratch cfg chart_ref opts = do
    dir ← private_temp_dir sdk "chart"
    deferred (pull_into cfg chart_ref opts dir) (remove_best_effort sdk dir)

  -- pullChartRef
  unfoldable pub pull_chart_ref :
      Config → String → ChartRefOptions → Go (Process types) (ResolvedChart Chart)
  unfolding pull_scratch
  pull_chart_ref cfg chart_ref opts =
      if str_eq opts.chart_repo_url "" && not (sdk.is_oci chart_ref)
      then fail (
          new_error code_chart_load (
            "chart_ref "
            ++ (quote chart_ref
                ++ " is not a local path; remote charts need chart_repo_url or an oci:// reference")))
      else pull_scratch cfg chart_ref opts

  local_or_pulled :
      Config → String → ChartRefOptions → Result Bool → Go (Process types) (ResolvedChart Chart)
  local_or_pulled cfg chart_ref opts (ok is_dir) = do
    c ← load_chart sdk chart_ref
    pure (record { chart = c; dir = if is_dir then chart_ref else "" })
  local_or_pulled cfg chart_ref opts (err e) = pull_chart_ref cfg chart_ref opts

  from_reference : Config → String → ChartRefOptions → Go (Process types) (ResolvedChart Chart)
  unfolding local_or_pulled
  from_reference cfg chart_ref opts = do
    info ← attempt (outer (sdk.stat chart_ref))
    local_or_pulled cfg chart_ref opts info

  from_handle : Object types → Go (Process types) (ResolvedChart Chart)
  from_handle obj = do c ← lift (as_chart sdk (some obj)); pure (record { chart = c; dir = "" })

  -- chartForAction. `none` is the nil interface.
  unfoldable pub chart_for_action :
      Config
      → Option (Object types)
      → String
      → ChartRefOptions
      → Go (Process types) (ResolvedChart Chart)
  unfolding from_reference from_handle
  chart_for_action cfg (some obj) chart_ref opts =
      if not (str_eq chart_ref "")
      then fail (new_error code_invalid_arg "pass either a chart handle or a chart_ref, not both")
      else from_handle obj
  chart_for_action cfg none chart_ref opts =
      if str_eq chart_ref ""
      then fail (new_error code_invalid_arg "either a chart handle or a chart_ref is required")
      else from_reference cfg chart_ref opts

  update_and_reload : String → ChartRefOptions → Go (Process types) Chart
  update_and_reload dir opts = do
    dependency_update sdk dir (record no_dependency_options {
      keyring = opts.keyring;
      verify = opts.verify;
      plain_http = opts.plain_http;
    })
    load_chart sdk dir

  checked : ResolvedChart Chart → Bool → ChartRefOptions → Option Err → Go (Process types) Chart
  unfolding update_and_reload
  checked rc update opts none = pure rc.chart
  checked rc update opts (some e) =
      if not update || str_eq rc.dir ""
      then fail (
          coded code_chart_invalid
            (wrapped "chart dependencies are missing; run dependency update/build first: " e))
      else update_and_reload rc.dir opts

  -- ensureDependencies
  unfoldable pub ensure_dependencies :
      ResolvedChart Chart → Bool → ChartRefOptions → Go (Process types) Chart
  unfolding checked
  ensure_dependencies rc update opts = do
    req ← lift (or_code code_chart_invalid (sdk.declared_dependencies rc.chart))
    if is_empty req then pure rc.chart else checked rc update opts (sdk.check_dependencies rc.chart)

  -- chartForInstall
  unfoldable pub chart_for_install :
      Config → Option (Object types) → String → ChartRefOptions → Go (Process types) Chart
  chart_for_install cfg chart_obj chart_ref opts = do
    rc ← chart_for_action cfg chart_obj chart_ref opts
    ensure_dependencies rc opts.dependency_update opts
