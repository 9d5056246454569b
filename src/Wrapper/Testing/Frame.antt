-- ===== src/Wrapper/Testing/Frame.antt =====
-- pkg/wrapper/testing_action.go: what testing a release, probing and binding respect.
use helm_c_sdk.Base.{Bool, true, false, Option, none, some, String}
use helm_c_sdk.Errors.{code_kube}
use helm_c_sdk.Go.{Go}
use helm_c_sdk.Options.Testing.{TestOptions}
use helm_c_sdk.Sdk.{Sdk}
use helm_c_sdk.Sdk.Structs.{Outside, ReleaseParts}
use helm_c_sdk.Sdk.Actions.{TestAction}
use helm_c_sdk.Process.{Config, Object}
use helm_c_sdk.Process.Respects.{
  Respects, returned, lifted, outside, outside_or, derefs, tried, bound, branched,
}
use helm_c_sdk.Process.Respects.Wide.{WideFrame, acted, rewrote}
use helm_c_sdk.Wrapper.Releases.Frame.{with_config-Respects}
use helm_c_sdk.Wrapper.Testing.{
  logs_through, logs_of, collect_test_logs, shut_down, test, test_release, probe, check_reachable,
  bind_client, bind_object, set_config_registry_client,
}

module _ (sdk : Sdk) (F : WideFrame sdk.types) where
  open sdk use {types, Release, Getter, Client}

  through-Respects :
      (rt : TestAction) (cfg : Config) (rel : Release) (g : Option Getter)
      → Respects F.frame (logs_through sdk rt cfg rel g)
  unfolding logs_through
  through-Respects rt cfg rel none = returned F.frame _
  through-Respects rt cfg rel (some g) = acted F _ _

  logs_of-Respects :
      (rt : TestAction) (cfg : Config) (rel : Release) (v1 : Option ReleaseParts)
      → Respects F.frame (logs_of sdk rt cfg rel v1)
  unfolding logs_of
  logs_of-Respects rt cfg rel none = returned F.frame _
  logs_of-Respects rt cfg rel (some v1) =
      branched F.frame _ _ _
        (bound F.frame _ _ (derefs F.frame cfg.cfg) λ c. through-Respects rt cfg rel _)
        (returned F.frame _)

  collect-Respects :
      (cfg : Config) (rt : TestAction) (rel : Option Release) (wanted : Bool)
      → Respects F.frame (collect_test_logs sdk cfg rt rel wanted)
  unfolding collect_test_logs
  collect-Respects cfg rt none wanted = returned F.frame _
  collect-Respects cfg rt (some rel) false = returned F.frame _
  collect-Respects cfg rt (some rel) true = logs_of-Respects rt cfg rel _

  shut_down-Respects :
      (f : Option (Go (Outside types) (Unit {0}))) → Respects F.frame (shut_down sdk f)
  unfolding shut_down
  shut_down-Respects none = returned F.frame none
  shut_down-Respects (some f) =
      bound F.frame _ _ (tried F.frame _ (outside F.frame f)) λ r. returned F.frame _

  tests :
      (name : String) (opts : TestOptions) (cfg : Config)
      → Respects F.frame (test sdk name opts cfg)
  unfolding test
  tests name opts cfg = bound F.frame _ _ (acted F cfg.cfg _) λ t.
      bound F.frame _ _ (collect-Respects cfg _ t.release opts.logs)
        λ logs. bound F.frame _ _ (shut_down-Respects t.shutdown) λ stopped. lifted F.frame _

  pub test_release-Respects :
      (obj : Option (Object types)) (name : String) (opts : TestOptions)
      → Respects F.frame (test_release sdk obj name opts)
  unfolding test_release
  test_release-Respects obj name opts = with_config-Respects sdk F obj _ (tests name opts)

  pub check_reachable-Respects :
      (obj : Option (Object types)) → Respects F.frame (check_reachable sdk obj)
  unfolding check_reachable
  check_reachable-Respects obj = with_config-Respects sdk F obj _ λ cfg.
      unfold probe in
      (bound F.frame _ _ (derefs F.frame cfg.cfg) λ c. outside_or F.frame code_kube _)

  bind-Respects :
      (cfg : Config) (client : Option Client) → Respects F.frame (bind_client sdk cfg client)
  unfolding bind_client
  bind-Respects cfg client = bound F.frame _ _ (derefs F.frame cfg.cfg) λ c. rewrote F cfg.cfg _

  bind_object-Respects :
      (obj : Option (Object types)) (cfg : Config) → Respects F.frame (bind_object sdk obj cfg)
  unfolding bind_object
  bind_object-Respects none cfg = bind-Respects cfg none
  bind_object-Respects (some obj) cfg =
      bound F.frame _ _ (lifted F.frame _) λ client. bind-Respects cfg (some client)

  pub set_client-Respects :
      (cfg_obj client_obj : Option (Object types))
      → Respects F.frame (set_config_registry_client sdk cfg_obj client_obj)
  unfolding set_config_registry_client
  set_client-Respects cfg_obj client_obj =
      with_config-Respects sdk F cfg_obj _ (bind_object-Respects client_obj)
