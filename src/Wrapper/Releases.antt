-- ===== src/Wrapper/Releases.antt =====
-- pkg/wrapper/release_actions.go: uninstall, rollback, list, status and history.
pub mod Frame
pub mod History
pub mod Inspect
use helm_c_sdk.Base.{
  ℕ, Bool, true, false, not, ◌&&◌, ◌||◌, Option, none, some, String, List, [], ◌∷◌, str_eq, any,
  ◌==◌, if◌then◌else◌,
}
use helm_c_sdk.Base.Text.{quote}
use helm_c_sdk.Errors.{Err, coded, sentinel, canceled, new_error, code_invalid_arg, code_cancelled}
use helm_c_sdk.Result.{Result, ok, err}
use helm_c_sdk.Go.{Go, pure, fail, lift, gets, ◌>>=◌, ◌>>◌, attempt}
use helm_c_sdk.Json.{Json, Document, Fields}
use helm_c_sdk.Sdk.{Sdk}
use helm_c_sdk.Process.{Config, Object, Process}
use helm_c_sdk.Process.Heap.{deref_config, act_at}
use helm_c_sdk.Wrapper.Strategies.{
  parse_dry_run, interacts_with_server, default_wait_strategy, apply_timeout,
  parse_post_render_strategy, validate_server_side_apply,
}
use helm_c_sdk.Wrapper.Charts.{unmarshal_values}
use helm_c_sdk.Wrapper.Config.{as_config, for_namespace, detached_configuration}
use helm_c_sdk.Wrapper.Rendering.{post_renderer_for, parse_kube_version}
use helm_c_sdk.Wrapper.ChartRef.{chart_for_install}
use helm_c_sdk.Wrapper.Summaries.{finish_release}
use Prim.Native.String.{◌++◌}
use helm_c_sdk.Base.Int.{ℤ, pos}
use helm_c_sdk.Errors.{code_release, wrapped}
use helm_c_sdk.Result.{or_code, check, ◌>>=◌ as and_then}
use helm_c_sdk.Json.{null, text, array, object, field, no_fields}
use helm_c_sdk.Options.Release.{UninstallOptions, RollbackOptions, StatusOptions, HistoryOptions}
use helm_c_sdk.Options.Listing.{ListOptions}
use helm_c_sdk.Sdk.Actions.{UninstallAction, RollbackAction, ListAction, UninstallResponse}
use helm_c_sdk.Wrapper.Failures.{wrap_action_error}
use helm_c_sdk.Wrapper.Strategies.{validate_deletion_propagation}
use helm_c_sdk.Wrapper.Summaries.{
  summarize_release, summarize_releases, summary_json, summary_items, summaries_json, return_pair,
}
use helm_c_sdk.Wrapper.Releases.History.{window}

module _ (sdk : Sdk) where
  open sdk use {types, Release}

  -- withConfig
  unfoldable pub with_config :
      {A : Type 0} → Option (Object types) → (Config → Go (Process types) A) → Go (Process types) A
  with_config cfg_obj run = do ref ← lift (as_config sdk cfg_obj); cfg ← deref_config ref; run cfg

  uninstall_release_json : String → Option Release → Result Json
  uninstall_release_json info none = ok (object (field "info" (text info) no_fields))
  uninstall_release_json info (some rel) =
      and_then (summarize_release sdk rel false)
        λ s. ok (object (field "info" (text info) (field "release" (summary_json s) no_fields)))

  -- What follows u.Run in UninstallRelease.
  unfoldable pub finish_uninstall : Result (Option (UninstallResponse types)) → Result Json
  unfolding uninstall_release_json
  finish_uninstall (err e) = return_pair null (wrap_action_error (some e) code_release)
  finish_uninstall (ok none) = ok (object (field "info" (text "") no_fields))
  finish_uninstall (ok (some resp)) = uninstall_release_json resp.info resp.release

  uninstall_action : UninstallAction → UninstallOptions → UninstallAction
  uninstall_action u opts = record u {
    keep_history = opts.keep_history;
    dry_run = opts.dry_run;
    ignore_not_found = opts.ignore_not_found;
    description = opts.description;
    disable_hooks = opts.disable_hooks;
    deletion_propagation = opts.deletion_propagation;
    timeout = apply_timeout opts.timeout_seconds u.timeout;
    wait_strategy = default_wait_strategy opts.wait;
  }

  -- The closure of UninstallRelease.
  unfoldable pub uninstall : String → UninstallOptions → Config → Go (Process types) Json
  unfolding uninstall_action
  uninstall name opts cfg = do
    lift (validate_deletion_propagation opts.deletion_propagation)
    resp ← attempt (
        act_at cfg.cfg (sdk.uninstall_run (uninstall_action (sdk.new_uninstall cfg.cfg) opts) name))
    lift (finish_uninstall resp)

  -- UninstallRelease
  unfoldable pub uninstall_release :
      Option (Object types) → String → UninstallOptions → Go (Process types) Json
  uninstall_release cfg_obj name opts = with_config cfg_obj (uninstall name opts)

  rollback_action : RollbackAction → RollbackOptions → String → RollbackAction
  rollback_action rb opts dry_run = record rb {
    version = opts.version;
    wait_for_jobs = opts.wait_for_jobs;
    disable_hooks = opts.disable_hooks;
    force_replace = opts.force_replace;
    force_conflicts = opts.force_conflicts;
    server_side_apply =
        if not (str_eq opts.server_side_apply "")
        then opts.server_side_apply
        else rb.server_side_apply;
    cleanup_on_fail = opts.cleanup_on_fail;
    max_history = opts.max_history;
    timeout = apply_timeout opts.timeout_seconds rb.timeout;
    wait_strategy = default_wait_strategy opts.wait;
    dry_run_strategy = dry_run;
  }

  abbrev action_error : Result (Unit {0}) → Result (Unit {0})
  action_error (ok tt) = check (wrap_action_error none code_release)
  action_error (err e) = check (wrap_action_error (some e) code_release)

  -- The closure of RollbackRelease.
  unfoldable pub rollback : String → RollbackOptions → Config → Go (Process types) (Unit {0})
  unfolding rollback_action
  rollback name opts cfg = do
    lift (validate_server_side_apply opts.server_side_apply)
    dry_run ← lift (parse_dry_run opts.dry_run)
    done ← attempt (
        act_at cfg.cfg
          (sdk.rollback_run (rollback_action (sdk.new_rollback cfg.cfg) opts dry_run) name))
    lift (action_error done)

  -- RollbackRelease
  unfoldable pub rollback_release :
      Option (Object types) → String → RollbackOptions → Go (Process types) (Unit {0})
  rollback_release cfg_obj name opts = with_config cfg_obj (rollback name opts)

  -- SetStateMask is of the SDK; that it was called is the last field.
  list_action : ListAction → ListOptions → ListAction
  list_action l opts = record l {
    all = opts.all;
    all_namespaces = opts.all_namespaces;
    limit = opts.limit;
    offset = opts.offset;
    filter = opts.filter;
    selector = opts.selector;
    by_date = opts.by_date;
    sort_reverse = opts.sort_reverse;
    deployed = opts.deployed;
    failed = opts.failed;
    pending = opts.pending;
    superseded = opts.superseded;
    uninstalled = opts.uninstalled;
    uninstalling = opts.uninstalling;
    state_mask_set = true;
  }

  abbrev regexp_error : Option Err → Result (Unit {0})
  regexp_error none = ok tt
  regexp_error (some e) = or_code code_invalid_arg (err (wrapped "invalid filter regex: " e))

  abbrev check_filter : String → Result (Unit {0})
  check_filter filter =
      if not (str_eq filter "") then regexp_error (sdk.compile_regexp filter) else ok tt

  -- The closure of ListReleases.
  unfoldable pub list : ListOptions → Config → Go (Process types) Json
  unfolding list_action
  list opts cfg = do
    lift (check_filter opts.filter)
    action_cfg ← if opts.all_namespaces then for_namespace sdk cfg "" else pure cfg.cfg
    rels ← attempt (act_at action_cfg (sdk.list_run (list_action (sdk.new_list action_cfg) opts)))
    lift (summaries_json sdk rels)

  -- ListReleases
  unfoldable pub list_releases : Option (Object types) → ListOptions → Go (Process types) Json
  list_releases cfg_obj opts = with_config cfg_obj (list opts)

  -- The closure of StatusRelease.
  unfoldable pub status : String → StatusOptions → Config → Go (Process types) Json
  status name opts cfg = do
    rel ← attempt (act_at cfg.cfg (sdk.status_run opts.revision name))
    lift (finish_release sdk rel)

  -- StatusRelease
  unfoldable pub status_release :
      Option (Object types) → String → StatusOptions → Go (Process types) Json
  status_release cfg_obj name opts = with_config cfg_obj (status name opts)

  -- What follows the SDK's call in HistoryRelease.
  unfoldable pub finish_history : ℤ → Result (List Release) → Result Json
  finish_history max (err e) = return_pair null (wrap_action_error (some e) code_release)
  finish_history max (ok rels) =
      and_then (summarize_releases sdk rels) λ ss. ok (array (summary_items (window max ss)))

  -- The closure of HistoryRelease.
  unfoldable pub history : String → HistoryOptions → Config → Go (Process types) Json
  history name opts cfg = do
    rels ← attempt (act_at cfg.cfg (sdk.history_run name))
    lift (finish_history opts.max rels)

  -- HistoryRelease
  unfoldable pub history_release :
      Option (Object types) → String → HistoryOptions → Go (Process types) Json
  history_release cfg_obj name opts = with_config cfg_obj (history name opts)
