-- ===== src/Tests/Boundary.antt =====
-- The C ABI of capi on the small instance.
use helm_c_sdk.Base.{ℕ, ◌+◌, ◌≡◌, refl, none, some, String, List, [], ◌∷◌, arith}
use helm_c_sdk.Base.Int.{pos}
use helm_c_sdk.Errors.{Err, code_invalid_arg, new_error, from_error}
use helm_c_sdk.Go.{Outcome, returns, fails, panics, Go}
use helm_c_sdk.Handles.{
  Registry, Call, puts, frees, get, run, err_wrong_type, type_chart, type_config, type_context,
}
use helm_c_sdk.Handles.Invariant.{Inv}
use helm_c_sdk.Handles.Lifetime.{IsDead}
use helm_c_sdk.Json.{Json, empty}
use helm_c_sdk.Options.Install.{no_install_options}
use helm_c_sdk.Process.{Object, Process}
use helm_c_sdk.Wrapper.Config.Lifecycle.{pending_file, without_file}
use helm_c_sdk.Wrapper.Prologue.Laws.{cancelled_error}
use helm_c_sdk.Capi.Boundary.{holds, ErrorOut, clear_error_out, failure, string_result}
use helm_c_sdk.Capi.Boundary.Contract.{Honest, string_result-Honest}
use helm_c_sdk.Capi.Registry.{free_handle, config_and_optional_chart}
use helm_c_sdk.Capi.Registry.Frees.{
  IsHandleError, hook_run, without, free_handle_refuses, free_handle_kills,
}
use helm_c_sdk.Capi.Contexts.{cancel_object, helm_context_cancel, helm_config_free}
use helm_c_sdk.Capi.Contexts.Closing.{config_free_closes}
use helm_c_sdk.Capi.Actions.{ChartShimArgs, ReleaseShimArgs, helm_install, release_action}
use helm_c_sdk.Capi.Actions.Guards.{release_action_guarded, cancel_stops_install}
use helm_c_sdk.Tests.Toy.{toy, toy_types, toy_process}

-- Handle 1 is a configuration, handle 2 a context.
abbrev open_registry : Registry (Object toy_types)
open_registry = record {
  next_id = 2;
  entries =
      (1, record { typ = type_config; obj = Object.config 2 })
      ∷ (2, record { typ = type_context; obj = Object.context 9 })
      ∷ [];
}

abbrev open_process : Process toy_types
open_process = record toy_process { registry = open_registry }

open_registry-Inv : Inv open_registry
open_registry-Inv = record {
  within = omega arith;
  distinct = (refl, (refl, tt));
  small = omega arith;
}

abbrev later : List (Call (Object toy_types))
later = frees 1 ∷ puts type_chart (Object.chart "web") ∷ []

abbrev wanted : ErrorOut
wanted = holds none

abbrev broken : Err
broken = new_error code_invalid_arg "no"

-- A body that counts its runs and fails.
abbrev failing : {A : Type 0} → Go ℕ A
failing n = (fails broken, n + 1)

string_result-Honest_example :
    Honest {A = String}
      (λ a. holds (some a))
      (holds none)
      (fails broken)
      (string_result (holds none) wanted failing 0).0
    × ((string_result {A = String} (holds none) wanted failing 0).1 ≡ 1)
unfolding new_error
string_result-Honest_example = string_result-Honest none wanted failing 0 ((λ e. cc e), tt)

free_handle_refuses_example :
    (free_handle 1 type_chart wanted none open_process ≡ (
      failure tt (clear_error_out wanted) (err_wrong_type 1 type_config type_chart),
      open_process,
    ))
    × IsHandleError (from_error (some (err_wrong_type 1 type_config type_chart)))
unfolding get
free_handle_refuses_example =
    free_handle_refuses 1 type_chart wanted none open_process
      (err_wrong_type 1 type_config type_chart) refl

abbrev cancelled_process : Process toy_types
cancelled_process = record open_process { outside = record { world = []; cancelled = 9 ∷ 7 ∷ [] } }

free_handle_kills_example :
    let (r, p') = free_handle 2 type_context wanted (some cancel_object) open_process in
    (r.code ≡ pos 0)
    × (p' ≡ record cancelled_process { registry = without 2 open_registry })
    × IsDead 2 (run later p'.registry)
unfolding get hook_run cancel_object helm_c_sdk.Go.◌>>=◌ helm_c_sdk.Capi.Contexts.assert_context
    helm_c_sdk.Capi.Contexts.cancel
free_handle_kills_example =
    free_handle_kills 2 type_context open_process cancelled_process wanted (some cancel_object)
      (Object.context 9) later refl refl refl open_registry-Inv (omega arith)

config_free_closes_example :
    let (r, q) = helm_config_free toy 1 wanted open_process in
    (r.code ≡ pos 0)
    × (q.outside ≡ without_file toy (pending_file 2 open_process) open_process.outside)
    × (pending_file 2 q ≡ "")
    × IsDead 1 (run later q.registry)
unfolding get
config_free_closes_example =
    config_free_closes toy 1 2 wanted open_process later refl open_registry-Inv (omega arith)

abbrev swapped : ReleaseShimArgs
swapped = record {
  cfg_h = 2;
  name = some "web";
  opts_json = none;
  out = holds none;
  error_out = wanted;
}

release_action_guarded_example :
    (release_action toy swapped (λ c n d p. (panics "reached", p)) open_process ≡ (
      failure (holds none) (clear_error_out wanted) (err_wrong_type 2 type_context type_config),
      open_process,
    ))
    × IsHandleError (from_error (some (err_wrong_type 2 type_context type_config)))
unfolding get
release_action_guarded_example =
    release_action_guarded toy swapped "web" none (λ c n d p. (panics "reached", p)) open_process
      (err_wrong_type 2 type_context type_config) refl refl refl

abbrev install_call : ChartShimArgs
install_call = record {
  cfg_h = 1;
  ctx_h = 2;
  chart_h = 0;
  chart_ref = some "/charts/web";
  name = some "web";
  values_json = none;
  opts_json = none;
  out = holds none;
  error_out = wanted;
}

cancel_stops_install_example :
    let q = (helm_context_cancel 2 wanted open_process).1 in
    helm_install toy install_call q
    ≡ (failure (holds none) (clear_error_out wanted) cancelled_error, q)
unfolding get config_and_optional_chart helm_c_sdk.Go.◌>>=◌ helm_c_sdk.Capi.Registry.registry_get
    helm_c_sdk.Capi.Contexts.cancel helm_c_sdk.Capi.Registry.chart_or_nil
    helm_c_sdk.Options.Install.parse_install_options helm_c_sdk.Json.Decode.decode_options
cancel_stops_install_example =
    cancel_stops_install toy install_call "web" none 9 wanted no_install_options
      (Object.config 2, none) open_process refl refl (omega arith) refl refl refl
