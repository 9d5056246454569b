-- ===== src/Wrapper/Show/Frame.antt =====
-- ShowChart of pkg/wrapper/chart.go: what showing a chart respects.
use helm_c_sdk.Base.{Bool, Option, none, some, String}
use helm_c_sdk.Errors.{code_chart_load}
use helm_c_sdk.Result.{Result, ok, err}
use helm_c_sdk.Options.ChartRef.{ChartRefOptions}
use helm_c_sdk.Options.Show.{ShowOptions}
use helm_c_sdk.Sdk.{Sdk}
use helm_c_sdk.Process.{Object}
use helm_c_sdk.Process.Respects.{
  Frame, Respects, returned, failed, lifted, outside, outside_or, swept, finished, allocates, tried,
  bound,
}
use helm_c_sdk.Wrapper.Settings.Frame.{temp-Respects}
use helm_c_sdk.Wrapper.Clients.Frame.{resolve_client-Respects}
use helm_c_sdk.Wrapper.ChartRef.{ResolvedChart}
use helm_c_sdk.Wrapper.ChartRef.Frame.{pull_chart_ref-Respects}
use helm_c_sdk.Wrapper.Show.{
  saved, fetched, local_or_fetched, local_chart_path, show_at, show_chart,
}

module _ (sdk : Sdk) (F : Frame sdk.types) where
  open sdk use {types, Chart, Client}

  saved-Respects : (dir : String) (r : Result String) → Respects F (saved sdk dir r)
  unfolding saved
  saved-Respects dir (ok path) = returned F _
  saved-Respects dir (err e) = bound F _ _ (swept F (sdk.remove_all dir)) λ a. failed F _

  fetched-Respects :
      (dir : String) (r : Result (ResolvedChart Chart)) → Respects F (fetched sdk dir r)
  unfolding fetched
  fetched-Respects dir (ok rc) =
      bound F _ _ (tried F _ (outside F _)) λ path. saved-Respects dir path
  fetched-Respects dir (err e) = bound F _ _ (swept F (sdk.remove_all dir)) λ a. failed F e

  local_or-Respects :
      (client : Option Client) (chart_ref : String) (opts : ChartRefOptions) (r : Result Bool)
      → Respects F (local_or_fetched sdk client chart_ref opts r)
  unfolding local_or_fetched
  local_or-Respects client chart_ref opts (ok is_dir) = returned F _
  local_or-Respects client chart_ref opts (err e) = bound F _ _ (allocates F _) λ ref.
      bound F _ _ (temp-Respects sdk F "show") λ dir.
        bound F _ _ (tried F _ (pull_chart_ref-Respects sdk F _ chart_ref opts))
          λ rc. fetched-Respects dir rc

  path-Respects :
      (client : Option Client) (chart_ref : String) (opts : ChartRefOptions)
      → Respects F (local_chart_path sdk client chart_ref opts)
  unfolding local_chart_path
  path-Respects client chart_ref opts =
      bound F _ _ (tried F _ (outside F _)) λ info. local_or-Respects client chart_ref opts info

  show_at-Respects :
      (format : String) (client : Option Client) (opts : ShowOptions) (path : String)
      (dir : Option String)
      → Respects F (show_at sdk format client opts (path, dir))
  unfolding show_at
  show_at-Respects format client opts path none =
      finished F _ (λ o. o) (outside_or F code_chart_load _)
  show_at-Respects format client opts path (some dir) =
      finished F _ (sdk.remove_all dir) (outside_or F code_chart_load _)

  pub show_chart-Respects :
      (obj : Option (Object types)) (chart_ref : String) (opts : ShowOptions)
      → Respects F (show_chart sdk obj chart_ref opts)
  unfolding show_chart
  show_chart-Respects obj chart_ref opts = bound F _ _ (lifted F _) λ format.
      bound F _ _ (resolve_client-Respects sdk F obj _ _) λ client.
        bound F _ _ (path-Respects client chart_ref opts.chart_ref_options)
          λ at. show_at-Respects format client opts at.0 at.1
