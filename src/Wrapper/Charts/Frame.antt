-- ===== src/Wrapper/Charts/Frame.antt =====
-- pkg/wrapper/chart.go: the configurations while a chart is loaded.
use helm_c_sdk.Base.{String}
use helm_c_sdk.Errors.{code_chart_load}
use helm_c_sdk.Sdk.{Sdk}
use helm_c_sdk.Process.Respects.{Frame, Respects, outside_or}
use helm_c_sdk.Wrapper.Charts.{load_chart}

module _ (sdk : Sdk) (F : Frame sdk.types) where
  pub load_chart-Respects : (path : String) → Respects F (load_chart sdk path)
  unfolding load_chart
  load_chart-Respects path = outside_or F code_chart_load _
