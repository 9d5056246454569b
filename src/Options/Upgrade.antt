-- ===== src/Options/Upgrade.antt =====
-- pkg/wrapper/upgrade.go: the JSON options contract.
use helm_c_sdk.Base.{Bool, String, [], false, ◌∷◌}
use helm_c_sdk.Base.Int.{pos, ℤ}
use helm_c_sdk.Json.{Document}
use helm_c_sdk.Result.{Result}
use helm_c_sdk.Json.Decode.{
  StringMap, Table, bool_slot, decode_options, embed, int_slot, map_slot, shadow, string_slot,
}
use helm_c_sdk.Options.ChartRef.{ChartRefOptions, no_chart_ref_options, chart_ref_options_fields}
use helm_c_sdk.Options.RenderTweaks.{RenderTweaks, no_render_tweaks, render_tweaks_fields}

pub record UpgradeOptions : Type 0 where
  pub namespace : String
  pub timeout_seconds : ℤ
  pub wait : String
  pub dry_run : String
  pub max_history : ℤ
  pub reset_values : Bool
  pub reuse_values : Bool
  pub cleanup_on_fail : Bool
  pub rollback_on_failure : Bool
  pub description : String
  pub labels : StringMap
  pub install : Bool
  pub reset_then_reuse_values : Bool
  pub disable_hooks : Bool
  pub force_replace : Bool
  pub force_conflicts : Bool
  pub server_side_apply : String
  pub skip_crds : Bool
  pub wait_for_jobs : Bool
  pub take_ownership : Bool
  pub sub_notes : Bool
  pub hide_notes : Bool
  pub hide_secret : Bool
  pub skip_schema_validation : Bool
  pub disable_openapi_validation : Bool
  pub render_tweaks : RenderTweaks
  pub open render_tweaks use *
  pub chart_ref_options : ChartRefOptions
  pub open chart_ref_options use *

abbrev pub no_upgrade_options : UpgradeOptions
no_upgrade_options = record {
  namespace = "";
  timeout_seconds = pos 0;
  wait = "";
  dry_run = "";
  max_history = pos 0;
  reset_values = false;
  reuse_values = false;
  cleanup_on_fail = false;
  rollback_on_failure = false;
  description = "";
  labels = [];
  install = false;
  reset_then_reuse_values = false;
  disable_hooks = false;
  force_replace = false;
  force_conflicts = false;
  server_side_apply = "";
  skip_crds = false;
  wait_for_jobs = false;
  take_ownership = false;
  sub_notes = false;
  hide_notes = false;
  hide_secret = false;
  skip_schema_validation = false;
  disable_openapi_validation = false;
  render_tweaks = no_render_tweaks;
  chart_ref_options = no_chart_ref_options;
}

abbrev own_upgrade_options_fields : Table UpgradeOptions
own_upgrade_options_fields =
    string_slot "namespace" (λ v o. record o { namespace = v })
    ∷ int_slot "timeout_seconds" (λ v o. record o { timeout_seconds = v })
    ∷ string_slot "wait" (λ v o. record o { wait = v })
    ∷ string_slot "dry_run" (λ v o. record o { dry_run = v })
    ∷ int_slot "max_history" (λ v o. record o { max_history = v })
    ∷ bool_slot "reset_values" (λ v o. record o { reset_values = v })
    ∷ bool_slot "reuse_values" (λ v o. record o { reuse_values = v })
    ∷ bool_slot "cleanup_on_fail" (λ v o. record o { cleanup_on_fail = v })
    ∷ bool_slot "rollback_on_failure" (λ v o. record o { rollback_on_failure = v })
    ∷ string_slot "description" (λ v o. record o { description = v })
    ∷ map_slot "labels" (λ o. o.labels) (λ v o. record o { labels = v })
    ∷ bool_slot "install" (λ v o. record o { install = v })
    ∷ bool_slot "reset_then_reuse_values" (λ v o. record o { reset_then_reuse_values = v })
    ∷ bool_slot "disable_hooks" (λ v o. record o { disable_hooks = v })
    ∷ bool_slot "force_replace" (λ v o. record o { force_replace = v })
    ∷ bool_slot "force_conflicts" (λ v o. record o { force_conflicts = v })
    ∷ string_slot "server_side_apply" (λ v o. record o { server_side_apply = v })
    ∷ bool_slot "skip_crds" (λ v o. record o { skip_crds = v })
    ∷ bool_slot "wait_for_jobs" (λ v o. record o { wait_for_jobs = v })
    ∷ bool_slot "take_ownership" (λ v o. record o { take_ownership = v })
    ∷ bool_slot "sub_notes" (λ v o. record o { sub_notes = v })
    ∷ bool_slot "hide_notes" (λ v o. record o { hide_notes = v })
    ∷ bool_slot "hide_secret" (λ v o. record o { hide_secret = v })
    ∷ bool_slot "skip_schema_validation" (λ v o. record o { skip_schema_validation = v })
    ∷ bool_slot "disable_openapi_validation" (λ v o. record o { disable_openapi_validation = v })
    ∷ []

abbrev pub upgrade_options_fields : Table UpgradeOptions
upgrade_options_fields = shadow own_upgrade_options_fields (
    shadow
      (embed (λ o. o.render_tweaks) (λ t o. record o { render_tweaks = t }) render_tweaks_fields)
      (embed (λ o. o.chart_ref_options) (λ t o. record o { chart_ref_options = t })
        chart_ref_options_fields))

unfoldable pub parse_upgrade_options : Document → Result UpgradeOptions
parse_upgrade_options = decode_options upgrade_options_fields no_upgrade_options "upgrade"
