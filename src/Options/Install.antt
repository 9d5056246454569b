-- ===== src/Options/Install.antt =====
-- pkg/wrapper/install.go: the JSON options contract.
use helm_c_sdk.Base.{Bool, Option, String, [], false, none, ◌∷◌}
use helm_c_sdk.Base.Int.{pos, ℤ}
use helm_c_sdk.Json.{Document}
use helm_c_sdk.Result.{Result}
use helm_c_sdk.Json.Decode.{
  StringMap, Table, bool_ptr_slot, bool_slot, decode_options, embed, int_slot, map_slot, shadow,
  string_slot,
}
use helm_c_sdk.Options.ChartRef.{ChartRefOptions, no_chart_ref_options, chart_ref_options_fields}
use helm_c_sdk.Options.RenderTweaks.{RenderTweaks, no_render_tweaks, render_tweaks_fields}

pub record InstallOptions : Type 0 where
  pub namespace : String
  pub timeout_seconds : ℤ
  pub wait : String
  pub dry_run : String
  pub create_namespace : Bool
  pub rollback_on_failure : Bool
  pub description : String
  pub labels : StringMap
  pub disable_hooks : Bool
  pub force_replace : Bool
  pub force_conflicts : Bool
  pub server_side_apply : Option Bool
  pub replace : Bool
  pub skip_crds : Bool
  pub wait_for_jobs : Bool
  pub take_ownership : Bool
  pub sub_notes : Bool
  pub hide_notes : Bool
  pub hide_secret : Bool
  pub skip_schema_validation : Bool
  pub disable_openapi_validation : Bool
  pub render_tweaks : RenderTweaks
  pub open render_tweaks use *
  pub chart_ref_options : ChartRefOptions
  pub open chart_ref_options use *

abbrev pub no_install_options : InstallOptions
no_install_options = record {
  namespace = "";
  timeout_seconds = pos 0;
  wait = "";
  dry_run = "";
  create_namespace = false;
  rollback_on_failure = false;
  description = "";
  labels = [];
  disable_hooks = false;
  force_replace = false;
  force_conflicts = false;
  server_side_apply = none;
  replace = false;
  skip_crds = false;
  wait_for_jobs = false;
  take_ownership = false;
  sub_notes = false;
  hide_notes = false;
  hide_secret = false;
  skip_schema_validation = false;
  disable_openapi_validation = false;
  render_tweaks = no_render_tweaks;
  chart_ref_options = no_chart_ref_options;
}

abbrev own_install_options_fields : Table InstallOptions
own_install_options_fields =
    string_slot "namespace" (λ v o. record o { namespace = v })
    ∷ int_slot "timeout_seconds" (λ v o. record o { timeout_seconds = v })
    ∷ string_slot "wait" (λ v o. record o { wait = v })
    ∷ string_slot "dry_run" (λ v o. record o { dry_run = v })
    ∷ bool_slot "create_namespace" (λ v o. record o { create_namespace = v })
    ∷ bool_slot "rollback_on_failure" (λ v o. record o { rollback_on_failure = v })
    ∷ string_slot "description" (λ v o. record o { description = v })
    ∷ map_slot "labels" (λ o. o.labels) (λ v o. record o { labels = v })
    ∷ bool_slot "disable_hooks" (λ v o. record o { disable_hooks = v })
    ∷ bool_slot "force_replace" (λ v o. record o { force_replace = v })
    ∷ bool_slot "force_conflicts" (λ v o. record o { force_conflicts = v })
    ∷ bool_ptr_slot "server_side_apply" (λ v o. record o { server_side_apply = v })
    ∷ bool_slot "replace" (λ v o. record o { replace = v })
    ∷ bool_slot "skip_crds" (λ v o. record o { skip_crds = v })
    ∷ bool_slot "wait_for_jobs" (λ v o. record o { wait_for_jobs = v })
    ∷ bool_slot "take_ownership" (λ v o. record o { take_ownership = v })
    ∷ bool_slot "sub_notes" (λ v o. record o { sub_notes = v })
    ∷ bool_slot "hide_notes" (λ v o. record o { hide_notes = v })
    ∷ bool_slot "hide_secret" (λ v o. record o { hide_secret = v })
    ∷ bool_slot "skip_schema_validation" (λ v o. record o { skip_schema_validation = v })
    ∷ bool_slot "disable_openapi_validation" (λ v o. record o { disable_openapi_validation = v })
    ∷ []

abbrev pub install_options_fields : Table InstallOptions
install_options_fields = shadow own_install_options_fields (
    shadow
      (embed (λ o. o.render_tweaks) (λ t o. record o { render_tweaks = t }) render_tweaks_fields)
      (embed (λ o. o.chart_ref_options) (λ t o. record o { chart_ref_options = t })
        chart_ref_options_fields))

unfoldable pub parse_install_options : Document → Result InstallOptions
parse_install_options = decode_options install_options_fields no_install_options "install"
