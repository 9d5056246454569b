-- ===== src/Options/Show.antt =====
-- pkg/wrapper/chart.go: the JSON options contract.
use helm_c_sdk.Base.{Bool, String, [], false, ◌∷◌}
use helm_c_sdk.Json.{Document}
use helm_c_sdk.Result.{Result}
use helm_c_sdk.Json.Decode.{Table, bool_slot, decode_options, embed, shadow, string_slot}
use helm_c_sdk.Options.ChartRef.{ChartRefOptions, no_chart_ref_options, chart_ref_options_fields}

pub record ShowOptions : Type 0 where
  pub format : String
  pub devel : Bool
  pub chart_ref_options : ChartRefOptions

abbrev pub no_show_options : ShowOptions
no_show_options = record { format = ""; devel = false; chart_ref_options = no_chart_ref_options }

abbrev own_show_options_fields : Table ShowOptions
own_show_options_fields =
    string_slot "format" (λ v o. record o { format = v })
    ∷ bool_slot "devel" (λ v o. record o { devel = v })
    ∷ []

abbrev pub show_options_fields : Table ShowOptions
show_options_fields = shadow own_show_options_fields (
    embed (λ o. o.chart_ref_options) (λ t o. record o { chart_ref_options = t })
      chart_ref_options_fields)

unfoldable pub parse_show_options : Document → Result ShowOptions
parse_show_options = decode_options show_options_fields no_show_options "show"
