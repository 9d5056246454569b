-- ===== src/Wrapper/ChartRef/Frame.antt =====
-- pkg/wrapper/actions.go: the configurations while a chart is resolved.
use helm_c_sdk.Base.{Bool, Option, none, some, String, List, [], ◌∷◌}
use helm_c_sdk.Errors.{Err}
use helm_c_sdk.Result.{Result, ok, err}
use helm_c_sdk.Sdk.{Sdk}
use helm_c_sdk.Process.{Config, Object}
use helm_c_sdk.Process.Respects.{
  Frame, Respects, finished, derefs, returned, lifted, outside, bound, failed, tried, recoded,
  branched,
}
use helm_c_sdk.Options.ChartRef.{ChartRefOptions}
use helm_c_sdk.Wrapper.Settings.Frame.{temp-Respects}
use helm_c_sdk.Wrapper.Charts.Frame.{load_chart-Respects}
use helm_c_sdk.Wrapper.Clients.Frame.{pull_chart-Respects}
use helm_c_sdk.Wrapper.Dependencies.Frame.{dependency_update-Respects}
use helm_c_sdk.Wrapper.ChartRef.{
  ResolvedChart, no_archive, load_entry, pull_into, pull_scratch, pull_chart_ref, local_or_pulled,
  from_reference, from_handle, chart_for_action, update_and_reload, checked, ensure_dependencies,
  chart_for_install,
}

module _ (sdk : Sdk) (F : Frame sdk.types) where
  open sdk use {types, Chart}

  no_archive-Respects : (chart_ref : String) → Respects F (no_archive sdk chart_ref)
  unfolding no_archive
  no_archive-Respects chart_ref = failed F _

  load_entry-Respects :
      (chart_ref dir : String) (r : Result (List String))
      → Respects F (load_entry sdk chart_ref dir r)
  unfolding load_entry
  load_entry-Respects chart_ref dir (err e) = no_archive-Respects chart_ref
  load_entry-Respects chart_ref dir (ok []) = no_archive-Respects chart_ref
  load_entry-Respects chart_ref dir (ok (name ∷ names)) =
      search (bound, load_chart-Respects, returned)

  pull_into-Respects :
      (cfg : Config) (chart_ref : String) (opts : ChartRefOptions) (dir : String)
      → Respects F (pull_into sdk cfg chart_ref opts dir)
  unfolding pull_into
  pull_into-Respects cfg chart_ref opts dir =
      search (bound, recoded, tried, outside, pull_chart-Respects, load_entry-Respects, derefs)

  pull_scratch-Respects :
      (cfg : Config) (chart_ref : String) (opts : ChartRefOptions)
      → Respects F (pull_scratch sdk cfg chart_ref opts)
  unfolding pull_scratch
  pull_scratch-Respects cfg chart_ref opts =
      bound F _ _ (temp-Respects sdk F "chart")
        λ dir. finished F _ (sdk.remove_all dir) (pull_into-Respects cfg chart_ref opts dir)

  pub pull_chart_ref-Respects :
      (cfg : Config) (chart_ref : String) (opts : ChartRefOptions)
      → Respects F (pull_chart_ref sdk cfg chart_ref opts)
  unfolding pull_chart_ref
  pull_chart_ref-Respects cfg chart_ref opts =
      branched F _ _ _ (failed F _) (pull_scratch-Respects cfg chart_ref opts)

  local_or_pulled-Respects :
      (cfg : Config) (chart_ref : String) (opts : ChartRefOptions) (r : Result Bool)
      → Respects F (local_or_pulled sdk cfg chart_ref opts r)
  unfolding local_or_pulled
  local_or_pulled-Respects cfg chart_ref opts (ok is_dir) =
      search (bound, load_chart-Respects, returned)
  local_or_pulled-Respects cfg chart_ref opts (err e) = pull_chart_ref-Respects cfg chart_ref opts

  from_reference-Respects :
      (cfg : Config) (chart_ref : String) (opts : ChartRefOptions)
      → Respects F (from_reference sdk cfg chart_ref opts)
  unfolding from_reference
  from_reference-Respects cfg chart_ref opts =
      search (bound, tried, outside, local_or_pulled-Respects)

  from_handle-Respects : (obj : Object types) → Respects F (from_handle sdk obj)
  unfolding from_handle
  from_handle-Respects obj = search (bound, lifted, returned)

  chart_for_action-Respects :
      (cfg : Config) (obj : Option (Object types)) (chart_ref : String) (opts : ChartRefOptions)
      → Respects F (chart_for_action sdk cfg obj chart_ref opts)
  unfolding chart_for_action
  chart_for_action-Respects cfg (some obj) chart_ref opts =
      branched F _ _ _ (failed F _) (from_handle-Respects obj)
  chart_for_action-Respects cfg none chart_ref opts =
      branched F _ _ _ (failed F _) (from_reference-Respects cfg chart_ref opts)

  update_and_reload-Respects :
      (dir : String) (opts : ChartRefOptions) → Respects F (update_and_reload sdk dir opts)
  unfolding update_and_reload
  update_and_reload-Respects dir opts =
      search (bound, dependency_update-Respects, load_chart-Respects)

  checked-Respects :
      (rc : ResolvedChart Chart) (update : Bool) (opts : ChartRefOptions) (e : Option Err)
      → Respects F (checked sdk rc update opts e)
  unfolding checked
  checked-Respects rc update opts none = returned F _
  checked-Respects rc update opts (some e) =
      branched F _ _ _ (failed F _) (update_and_reload-Respects rc.dir opts)

  ensure_dependencies-Respects :
      (rc : ResolvedChart Chart) (update : Bool) (opts : ChartRefOptions)
      → Respects F (ensure_dependencies sdk rc update opts)
  unfolding ensure_dependencies
  ensure_dependencies-Respects rc update opts =
      bound F _ _ (lifted F _)
        λ req. branched F _ _ _ (returned F _) (checked-Respects rc update opts _)

  -- Finding the chart of an install or an upgrade, with its downloads and dependency updates, changes
  -- no configuration that was there.
  pub chart_for_install-Respects :
      (cfg : Config) (obj : Option (Object types)) (chart_ref : String) (opts : ChartRefOptions)
      → Respects F (chart_for_install sdk cfg obj chart_ref opts)
  unfolding chart_for_install
  chart_for_install-Respects cfg obj chart_ref opts =
      search (bound, chart_for_action-Respects, ensure_dependencies-Respects)
