-- ===== src/Capi/Actions/Guards.antt =====
-- capi/actions.go: what stops an action before the SDK is reached.
use helm_c_sdk.Base.{ℕ, ◌≡◌, refl, ◌≢◌, ◌∙◌, true, Option, some, String}
use helm_c_sdk.Errors.{Err, from_error}
use helm_c_sdk.Result.{ok, err}
use helm_c_sdk.Go.{returns, fails, Go, lift, ◌>>=◌}
use helm_c_sdk.Go.Laws.{bind-returns, bind-fails}
use helm_c_sdk.Handles.{type_config, type_context, get}
use helm_c_sdk.Json.{Json, Document}
use helm_c_sdk.Options.Install.{InstallOptions, parse_install_options}
use helm_c_sdk.Sdk.{Sdk}
use helm_c_sdk.Process.{Object, Process}
use helm_c_sdk.Wrapper.Prologue.{is_cancelled}
use helm_c_sdk.Wrapper.Prologue.Laws.{cancelled_error}
use helm_c_sdk.Wrapper.Install.{install_release}
use helm_c_sdk.Wrapper.Install.Isolation.{cancelled_install_refused}
use helm_c_sdk.Capi.Boundary.{
  Slot, holds, CString, ErrorOut, go_json, clear_error_out, failure, named_result,
}
use helm_c_sdk.Capi.Registry.{config_and_optional_chart}
use helm_c_sdk.Capi.Registry.Frees.{IsHandleError, get_error_code, registry_get-err}
use helm_c_sdk.Capi.Contexts.{cancel, helm_context_cancel}
use helm_c_sdk.Capi.Contexts.Cancelling.{
  ctx_or_background-ok, helm_context_cancel-ok, is_cancelled-cancel,
}
use helm_c_sdk.Capi.Actions.{
  ChartShimArgs, ReleaseShimArgs, ChartRunInputs, chart_action_body, chart_action_shim,
  install_body, helm_install, release_action_body, release_action,
}

-- A body that fails makes its export fail, with the error's code and text.
named-fails :
    {S A : Type 0} (name : String) (c : CString) (x : Option A) (out : Slot (Option A))
    (o : ErrorOut) (run : String → Go S A) (s s' : S) (e : Err)
    → c ≡ some name
    → out ≡ holds x
    → run name s ≡ (fails e, s')
    → named_result c out o run s ≡ (failure (holds x) (clear_error_out o) e, s')
unfolding named_result
named-fails name c x out o run s s' e named given h = rw (named, given, h) refl

-- A release action whose config handle is dead, or is a handle of another type, fails with the code of
-- that and changes nothing: the options are not read and the SDK is not called. The caller gave a name
-- and an out-parameter.
pub release_action_guarded :
    (sdk : Sdk) (a : ReleaseShimArgs) (name : String) (x : Option Json)
    (run : Option (Object sdk.types) → String → Document → Go (Process sdk.types) Json)
    (p : Process sdk.types) (e : Err)
    → a.name ≡ some name
    → a.out ≡ holds x
    → get a.cfg_h type_config p.registry ≡ err e
    → (release_action sdk a run p ≡ (failure (holds x) (clear_error_out a.error_out) e, p))
      × IsHandleError (from_error (some e))
unfolding release_action
release_action_guarded sdk a name x run p e named given refused = (
  named-fails name a.name x a.out a.error_out (release_action_body sdk a run) p p e named given (
      unfold release_action_body in
      bind-fails _ _ p p e (registry_get-err a.cfg_h type_config p e refused)),
  get_error_code a.cfg_h type_config p.registry e refused,
)

install_body-stops :
    (sdk : Sdk) (i : ChartRunInputs sdk) (opts : InstallOptions) (q : Process sdk.types)
    → parse_install_options i.opts_json ≡ ok opts
    → is_cancelled sdk i.ctx q ≡ true
    → install_body sdk i q ≡ (fails cancelled_error, q)
unfolding install_body lift ◌>>=◌ install_release
install_body-stops sdk i opts q parsed stopped =
    rw parsed
      (cancelled_install_refused sdk i.ctx i.cfg_obj i.chart_obj i.chart_ref i.name i.values_json
        opts q stopped).0

-- helm_context_cancel and a later helm_install with the same context: the install fails with the
-- cancelled code, *out is untouched, and the process is as the cancellation left it. The context
-- handle is live, the config handle and the chart handle resolve, and the options decode.
pub cancel_stops_install :
    (sdk : Sdk) (a : ChartShimArgs) (name : String) (x : Option Json) (c : ℕ) (o : ErrorOut)
    (opts : InstallOptions) (objs : Object sdk.types × Option (Object sdk.types))
    (p : Process sdk.types)
    → a.name ≡ some name
    → a.out ≡ holds x
    → a.ctx_h ≢ 0
    → get a.ctx_h type_context p.registry ≡ ok (Object.context c)
    → config_and_optional_chart a.cfg_h a.chart_h (cancel c p) ≡ (returns objs, cancel c p)
    → parse_install_options (go_json a.opts_json) ≡ ok opts
    → let q = (helm_context_cancel a.ctx_h o p).1 in
      helm_install sdk a q ≡ (failure (holds x) (clear_error_out a.error_out) cancelled_error, q)
unfolding helm_install chart_action_shim cancel
cancel_stops_install sdk a name x c o opts objs p named given ne held found parsed =
    let q = cancel c p in
    let body : chart_action_body sdk a (install_body sdk) name q ≡ (fails cancelled_error, q) =
      unfold chart_action_body in
      (bind-returns _ _ q q objs found
        ∙ (bind-returns _ _ q q (some c) (ctx_or_background-ok a.ctx_h c q ne held)
            ∙ install_body-stops sdk _ opts q parsed (is_cancelled-cancel sdk c p))) in
    rw (helm_context_cancel-ok a.ctx_h c p o held) (
      named-fails name a.name x a.out a.error_out (chart_action_body sdk a (install_body sdk)) q q
        cancelled_error named given body)
