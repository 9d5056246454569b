-- ===== src/Wrapper/Prologue.antt =====
-- pkg/wrapper/actions.go: checkNotCancelled and actionPrologue. `none` is the background context, a
-- number a context that other threads may cancel at any time.
pub mod Laws
use helm_c_sdk.Base.{
  ℕ, Bool, true, false, not, ◌&&◌, ◌||◌, Option, none, some, String, List, [], ◌∷◌, str_eq, any,
  ◌==◌, if◌then◌else◌,
}
use helm_c_sdk.Base.Text.{quote}
use helm_c_sdk.Errors.{Err, coded, sentinel, canceled, new_error, code_invalid_arg, code_cancelled}
use helm_c_sdk.Result.{Result, ok, err}
use helm_c_sdk.Go.{Go, pure, fail, lift, gets, ◌>>=◌, ◌>>◌, attempt}
use helm_c_sdk.Json.{Json, Document, Fields}
use helm_c_sdk.Sdk.{Sdk}
use helm_c_sdk.Process.{Config, Object, Process}
use helm_c_sdk.Process.Heap.{deref_config, act_at}
use helm_c_sdk.Wrapper.Strategies.{
  parse_dry_run, interacts_with_server, default_wait_strategy, apply_timeout,
  parse_post_render_strategy, validate_server_side_apply,
}
use helm_c_sdk.Wrapper.Charts.{unmarshal_values}
use helm_c_sdk.Wrapper.Config.{as_config, for_namespace, detached_configuration}
use helm_c_sdk.Wrapper.Rendering.{post_renderer_for, parse_kube_version}
use helm_c_sdk.Wrapper.ChartRef.{chart_for_install}
use helm_c_sdk.Wrapper.Summaries.{finish_release}

module _ (sdk : Sdk) where
  open sdk use {types}

  -- ctx.Err() != nil
  unfoldable pub is_cancelled : Option ℕ → Process types → Bool
  is_cancelled none p = false
  is_cancelled (some c) p = any (λ d. c == d) p.outside.cancelled

  -- checkNotCancelled
  unfoldable pub check_not_cancelled : Option ℕ → Go (Process types) (Unit {0})
  check_not_cancelled ctx = do
    gone ← gets (is_cancelled ctx)
    if gone then fail (coded code_cancelled (sentinel canceled)) else pure tt

  -- actionPrologue
  unfoldable pub action_prologue :
      Option ℕ → Option (Object types) → Document → Go (Process types) (Config × Option Fields)
  action_prologue ctx cfg_obj values = do
    check_not_cancelled ctx
    ref ← lift (as_config sdk cfg_obj)
    vals ← lift (unmarshal_values values)
    cfg ← deref_config ref
    pure (cfg, vals)
