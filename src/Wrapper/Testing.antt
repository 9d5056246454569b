-- ===== src/Wrapper/Testing.antt =====
-- pkg/wrapper/testing_action.go: the tests of a release, and what is bound to a configuration.
pub mod Frame
pub mod Cleanup
pub mod Binding
use helm_c_sdk.Base.{
  Bool, true, false, Option, none, some, String, List, [], ◌∷◌, str_eq, any, if◌then◌else◌,
}
use mathlib.Core.List.{◌++◌ as append}
use helm_c_sdk.Errors.{Err, coded, new_error, code_release, code_kube}
use helm_c_sdk.Result.{Result, ok, err, error_of, or_code, ◌>>=◌ as and_then}
use helm_c_sdk.Go.{Go, pure, lift, modify, ◌>>=◌, attempt, with_error_code}
use helm_c_sdk.Json.{Json, null, text, object, field, no_fields}
use helm_c_sdk.Options.Testing.{TestOptions}
use helm_c_sdk.Sdk.{Sdk}
use helm_c_sdk.Sdk.Structs.{Configuration, Outside, ReleaseParts}
use helm_c_sdk.Sdk.Actions.{FilterKey, include_name, exclude_name, TestAction, TestRun}
use helm_c_sdk.Base.Assoc.{insert}
use helm_c_sdk.Process.{Config, Object, Process}
use helm_c_sdk.Process.Heap.{act_at, deref_configuration, outer}
use helm_c_sdk.Wrapper.Strategies.{apply_timeout}
use helm_c_sdk.Wrapper.Charts.{as_registry_client}
use helm_c_sdk.Wrapper.Failures.{wrap_action_error}
use helm_c_sdk.Wrapper.Summaries.{ReleaseSummary, summarize_release, summary_json, return_pair}
use helm_c_sdk.Wrapper.Releases.{with_config}

abbrev filter_of : FilterKey → List String → List (FilterKey × List String)
filter_of key [] = []
filter_of key (n ∷ names) = (key, n ∷ names) ∷ []

-- firstError
unfoldable pub first_error : Option Err → Option Err → Option Err
first_error (some e) next = some e
first_error none next = next

module _ (sdk : Sdk) where
  open sdk use {types, Release, Getter, Client}

  -- newReleaseTesting
  unfoldable pub new_release_testing : Config → TestOptions → TestAction
  new_release_testing cfg opts =
      let rt = sdk.new_testing cfg.cfg in
      record rt {
        namespace = cfg.namespace;
        timeout = apply_timeout opts.timeout_seconds rt.timeout;
        filters =
            append (filter_of include_name opts.include_names)
              (filter_of exclude_name opts.exclude_names);
      }

  -- hasTestHooks, of a release of version 1
  unfoldable pub has_test_hooks : ReleaseParts → Bool
  has_test_hooks v1 = any (λ events. any (λ e. str_eq e sdk.hook_test) events) v1.hook_events

  logs_through :
      TestAction → Config → Release → Option Getter → Go (Process types) (String × Option Err)
  logs_through rt cfg rel none =
      pure ("", some (new_error code_kube "test pod logs need a cluster connection"))
  logs_through rt cfg rel (some g) = act_at cfg.cfg (sdk.get_pod_logs rt rel)

  logs_of :
      TestAction → Config → Release → Option ReleaseParts → Go (Process types) (String × Option Err)
  unfolding logs_through
  logs_of rt cfg rel none = pure ("", none)
  logs_of rt cfg rel (some v1) =
      if has_test_hooks v1
      then (do c ← deref_configuration cfg.cfg; logs_through rt cfg rel c.rest_client_getter)
      else pure ("", none)

  -- collectTestLogs: the logs, and the error
  unfoldable pub collect_test_logs :
      Config → TestAction → Option Release → Bool → Go (Process types) (String × Option Err)
  unfolding logs_of
  collect_test_logs cfg rt none wanted = pure ("", none)
  collect_test_logs cfg rt (some rel) false = pure ("", none)
  collect_test_logs cfg rt (some rel) true = logs_of rt cfg rel (sdk.release_parts rel)

  -- shutdown(), if there is one
  unfoldable pub shut_down :
      Option (Go (Outside types) (Unit {0})) → Go (Process types) (Option Err)
  shut_down none = pure none
  shut_down (some f) = do r ← attempt (outer f); pure (error_of r)

  -- summarizeRelease, of a release that may be nil
  abbrev summary_of_test : Option Release → Result ReleaseSummary
  summary_of_test none = or_code code_release (err sdk.nil_release)
  summary_of_test (some rel) = summarize_release sdk rel false

  -- The end of TestRelease.
  unfoldable pub finish_test : Option Release → String → Option Err → Result Json
  finish_test rel logs (some e) = return_pair null (wrap_action_error (some e) code_release)
  finish_test rel logs none =
      and_then (summary_of_test rel)
        λ s. ok (object (field "logs" (text logs) (field "release" (summary_json s) no_fields)))

  -- The closure of TestRelease.
  unfoldable pub test : String → TestOptions → Config → Go (Process types) Json
  test name opts cfg = do
    t ← act_at cfg.cfg (sdk.test_run (new_release_testing cfg opts) name)
    logs ← collect_test_logs cfg (new_release_testing cfg opts) t.release opts.logs
    stopped ← shut_down t.shutdown
    lift (finish_test t.release logs.0 (first_error (first_error t.failure logs.1) stopped))

  -- TestRelease
  unfoldable pub test_release :
      Option (Object types) → String → TestOptions → Go (Process types) Json
  test_release cfg_obj name opts = with_config sdk cfg_obj (test name opts)

  probe : Config → Go (Process types) (Unit {0})
  probe cfg = do
    c ← deref_configuration cfg.cfg
    with_error_code code_kube (outer (sdk.is_reachable c.kube_client))

  -- CheckReachable
  unfoldable pub check_reachable : Option (Object types) → Go (Process types) (Unit {0})
  unfolding probe
  check_reachable cfg_obj = with_config sdk cfg_obj probe

  -- cfg.Cfg.RegistryClient = ...
  bind_client : Config → Option Client → Go (Process types) (Unit {0})
  bind_client cfg client = do
    c ← deref_configuration cfg.cfg
    modify (λ p. record p {
      configurations = insert cfg.cfg (record c { registry_client = client }) p.configurations;
    })

  bind_object : Option (Object types) → Config → Go (Process types) (Unit {0})
  unfolding bind_client
  bind_object none cfg = bind_client cfg none
  bind_object (some obj) cfg = do
    client ← lift (as_registry_client sdk (some obj))
    bind_client cfg (some client)

  -- SetConfigRegistryClient
  unfoldable pub set_config_registry_client :
      Option (Object types) → Option (Object types) → Go (Process types) (Unit {0})
  unfolding bind_object
  set_config_registry_client cfg_obj client_obj = with_config sdk cfg_obj (bind_object client_obj)
