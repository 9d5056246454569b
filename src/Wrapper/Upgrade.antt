-- ===== src/Wrapper/Upgrade.antt =====
-- pkg/wrapper/upgrade.go: UpgradeRelease and the action it builds.
pub mod Frame
pub mod Laws
use Prim.Native.String.{◌++◌}
use helm_c_sdk.Base.{
  ℕ, Bool, true, false, not, ◌&&◌, ◌||◌, Option, none, some, String, List, [], ◌∷◌, str_eq, any,
  ◌==◌, if◌then◌else◌,
}
use helm_c_sdk.Base.Text.{quote}
use helm_c_sdk.Errors.{Err, coded, sentinel, canceled, new_error, code_invalid_arg, code_cancelled}
use helm_c_sdk.Result.{Result, ok, err}
use helm_c_sdk.Go.{Go, pure, fail, lift, gets, ◌>>=◌, ◌>>◌, attempt}
use helm_c_sdk.Json.{Json, Document, Fields}
use helm_c_sdk.Sdk.{Sdk}
use helm_c_sdk.Process.{Config, Object, Process}
use helm_c_sdk.Process.Heap.{deref_config, act_at}
use helm_c_sdk.Wrapper.Strategies.{
  parse_dry_run, interacts_with_server, default_wait_strategy, apply_timeout,
  parse_post_render_strategy, validate_server_side_apply,
}
use helm_c_sdk.Wrapper.Charts.{unmarshal_values}
use helm_c_sdk.Wrapper.Config.{as_config, for_namespace, detached_configuration}
use helm_c_sdk.Wrapper.Rendering.{post_renderer_for, parse_kube_version}
use helm_c_sdk.Wrapper.ChartRef.{chart_for_install}
use helm_c_sdk.Wrapper.Summaries.{finish_release}
use helm_c_sdk.Options.Upgrade.{UpgradeOptions}
use helm_c_sdk.Sdk.Actions.{UpgradeAction}
use helm_c_sdk.Wrapper.Prologue.{action_prologue}

abbrev pub other_namespace : String → String → Err
other_namespace have got = new_error code_invalid_arg (
    "upgrade cannot change namespace (config is "
    ++ (quote have ++ (", got " ++ (quote got ++ "); create a config for that namespace"))))

module _ (sdk : Sdk) where
  open sdk use {types, Chart}

  abbrev plain_upgrade_options : UpgradeAction types → UpgradeOptions → UpgradeAction types
  plain_upgrade_options up opts = record up {
    max_history = opts.max_history;
    reset_values = opts.reset_values;
    reuse_values = opts.reuse_values;
    reset_then_reuse_values = opts.reset_then_reuse_values;
    cleanup_on_fail = opts.cleanup_on_fail;
    rollback_on_failure = opts.rollback_on_failure;
    description = opts.description;
    labels = opts.labels;
    install = opts.install;
    disable_hooks = opts.disable_hooks;
    force_replace = opts.force_replace;
    force_conflicts = opts.force_conflicts;
    skip_crds = opts.skip_crds;
    wait_for_jobs = opts.wait_for_jobs;
    take_ownership = opts.take_ownership;
    sub_notes = opts.sub_notes;
    hide_notes = opts.hide_notes;
    hide_secret = opts.hide_secret;
    skip_schema_validation = opts.skip_schema_validation;
    disable_openapi_validation = opts.disable_openapi_validation;
    enable_dns = opts.enable_dns;
    devel = opts.devel;
    dependency_update = opts.dependency_update;
    server_side_apply =
        if not (str_eq opts.server_side_apply "")
        then opts.server_side_apply
        else up.server_side_apply;
  }

  -- applyUpgradeOptions: the fields of the action it ends with
  unfoldable pub apply_upgrade_options :
      UpgradeAction types → UpgradeOptions → Go (Process types) (UpgradeAction types)
  apply_upgrade_options up opts = do
    pr ← post_renderer_for sdk opts.post_renderer opts.post_renderer_args
    strategy ← lift (parse_post_render_strategy opts.post_render_strategy)
    pure (record (plain_upgrade_options up opts) {
      post_renderer = pr;
      post_render_strategy = strategy;
    })

  build_upgrade : Config → UpgradeOptions → Go (Process types) (UpgradeAction types)
  build_upgrade cfg opts = do
    lift (validate_server_side_apply opts.server_side_apply)
    let up = sdk.new_upgrade cfg.cfg
    dry_run ← lift (parse_dry_run opts.dry_run)
    apply_upgrade_options
        (record up {
          namespace = cfg.namespace;
          timeout = apply_timeout opts.timeout_seconds up.timeout;
          wait_strategy = default_wait_strategy opts.wait;
          dry_run_strategy = dry_run;
        })
        opts

  -- newUpgrade
  unfoldable pub new_upgrade : Config → UpgradeOptions → Go (Process types) (UpgradeAction types)
  unfolding build_upgrade
  new_upgrade cfg opts =
      if not (str_eq opts.namespace "") && not (str_eq opts.namespace cfg.namespace)
      then fail (other_namespace cfg.namespace opts.namespace)
      else build_upgrade cfg opts

  -- UpgradeRelease
  unfoldable pub upgrade_release :
      Option ℕ
      → Option (Object types)
      → Option (Object types)
      → String
      → String
      → Document
      → UpgradeOptions
      → Go (Process types) Json
  upgrade_release ctx cfg_obj chart_obj chart_ref name values opts = do
    start ← action_prologue sdk ctx cfg_obj values
    up ← new_upgrade start.0 opts
    c ← chart_for_install sdk start.0 chart_obj chart_ref opts.chart_ref_options
    rel ← attempt (act_at up.cfg (sdk.upgrade_run up ctx name c start.1))
    lift (finish_release sdk rel)
