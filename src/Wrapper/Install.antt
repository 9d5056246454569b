-- ===== src/Wrapper/Install.antt =====
-- pkg/wrapper/install.go: InstallRelease and the action it builds.
pub mod Frame
pub mod Isolation
use helm_c_sdk.Base.{
  ℕ, Bool, true, false, not, ◌&&◌, ◌||◌, Option, none, some, String, List, [], ◌∷◌, str_eq, any,
  ◌==◌, if◌then◌else◌,
}
use helm_c_sdk.Base.Text.{quote}
use helm_c_sdk.Errors.{Err, coded, sentinel, canceled, new_error, code_invalid_arg, code_cancelled}
use helm_c_sdk.Result.{Result, ok, err}
use helm_c_sdk.Go.{Go, pure, fail, lift, gets, ◌>>=◌, ◌>>◌, attempt}
use helm_c_sdk.Json.{Json, Document, Fields}
use helm_c_sdk.Sdk.{Sdk}
use helm_c_sdk.Process.{Config, Object, Process}
use helm_c_sdk.Process.Heap.{deref_config, act_at}
use helm_c_sdk.Wrapper.Strategies.{
  parse_dry_run, interacts_with_server, default_wait_strategy, apply_timeout,
  parse_post_render_strategy, validate_server_side_apply,
}
use helm_c_sdk.Wrapper.Charts.{unmarshal_values}
use helm_c_sdk.Wrapper.Config.{as_config, for_namespace, detached_configuration}
use helm_c_sdk.Wrapper.Rendering.{post_renderer_for, parse_kube_version}
use helm_c_sdk.Wrapper.ChartRef.{chart_for_install}
use helm_c_sdk.Wrapper.Summaries.{finish_release}
use helm_c_sdk.Options.Install.{InstallOptions}
use helm_c_sdk.Sdk.Actions.{InstallAction}
use helm_c_sdk.Wrapper.Prologue.{action_prologue}

module _ (sdk : Sdk) where
  open sdk use {types, Chart, KubeVersion}

  abbrev or_server_side : Option Bool → Bool → Bool
  or_server_side none current = current
  or_server_side (some b) current = b

  abbrev plain_install_options : InstallAction types → InstallOptions → InstallAction types
  plain_install_options inst opts = record inst {
    create_namespace = opts.create_namespace;
    rollback_on_failure = opts.rollback_on_failure;
    description = opts.description;
    labels = opts.labels;
    disable_hooks = opts.disable_hooks;
    force_replace = opts.force_replace;
    force_conflicts = opts.force_conflicts;
    replace = opts.replace;
    skip_crds = opts.skip_crds;
    wait_for_jobs = opts.wait_for_jobs;
    take_ownership = opts.take_ownership;
    sub_notes = opts.sub_notes;
    hide_notes = opts.hide_notes;
    hide_secret = opts.hide_secret;
    skip_schema_validation = opts.skip_schema_validation;
    disable_openapi_validation = opts.disable_openapi_validation;
    enable_dns = opts.enable_dns;
    devel = opts.devel;
    dependency_update = opts.dependency_update;
    server_side_apply = or_server_side opts.server_side_apply inst.server_side_apply;
  }

  -- applyInstallOptions: the fields of the action it ends with
  unfoldable pub apply_install_options :
      InstallAction types → InstallOptions → Go (Process types) (InstallAction types)
  apply_install_options inst opts = do
    kv ← lift (parse_kube_version sdk opts.kube_version)
    pr ← post_renderer_for sdk opts.post_renderer opts.post_renderer_args
    strategy ← lift (parse_post_render_strategy opts.post_render_strategy)
    pure (record (plain_install_options inst opts) {
      kube_version = kv;
      api_versions = opts.api_versions;
      post_renderer = pr;
      post_render_strategy = strategy;
    })

  abbrev or_namespace : String → String → String
  or_namespace namespace default = if str_eq namespace "" then default else namespace

  -- The configuration that the action gets.
  unfoldable pub install_configuration : Config → String → String → Go (Process types) ℕ
  install_configuration cfg namespace dry_run = do
    own ← for_namespace sdk cfg namespace
    if not (interacts_with_server dry_run) then detached_configuration sdk own else pure own

  -- newInstall
  unfoldable pub new_install :
      Config → String → InstallOptions → Go (Process types) (InstallAction types)
  new_install cfg name opts = do
    dry_run ← lift (parse_dry_run opts.dry_run)
    let namespace = or_namespace opts.namespace cfg.namespace
    action_cfg ← install_configuration cfg namespace dry_run
    let inst = sdk.new_install action_cfg
    apply_install_options
        (record inst {
          release_name = name;
          namespace = namespace;
          dry_run_strategy = dry_run;
          timeout = apply_timeout opts.timeout_seconds inst.timeout;
          wait_strategy = default_wait_strategy opts.wait;
        })
        opts

  -- InstallRelease
  unfoldable pub install_release :
      Option ℕ
      → Option (Object types)
      → Option (Object types)
      → String
      → String
      → Document
      → InstallOptions
      → Go (Process types) Json
  install_release ctx cfg_obj chart_obj chart_ref name values opts = do
    start ← action_prologue sdk ctx cfg_obj values
    inst ← new_install start.0 name opts
    c ← chart_for_install sdk start.0 chart_obj chart_ref opts.chart_ref_options
    rel ← attempt (act_at inst.cfg (sdk.install_run inst ctx c start.1))
    lift (finish_release sdk rel)
