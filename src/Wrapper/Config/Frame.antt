-- ===== src/Wrapper/Config/Frame.antt =====
-- pkg/wrapper/config.go: what making a configuration respects.
use helm_c_sdk.Base.{ℕ, Bool, true, false, String, if◌then◌else◌}
use helm_c_sdk.Errors.{code_kube, code_io}
use helm_c_sdk.Result.{Result, ok, err}
use helm_c_sdk.Go.{modify}
use helm_c_sdk.Options.Config.{ConfigOptions}
use helm_c_sdk.Sdk.{Sdk}
use helm_c_sdk.Sdk.Structs.{Outside}
use helm_c_sdk.Process.{Config}
use helm_c_sdk.Process.Respects.{
  Frame, Respects, returned, failed, looked, outside, outside_or, swept, allocates, records, derefs,
  tried, recoded, bound, branched,
}
use helm_c_sdk.Process.Respects.Wide.{WideFrame, acted}
use helm_c_sdk.Wrapper.Config.{
  write_if, finish_temp, write_temp_kubeconfig, new_action_configuration, finish_config,
  config_from, config_from_content, new_config, for_namespace, detached_configuration,
}

module _ (sdk : Sdk) (F : Frame sdk.types) where
  write_if-Respects :
      (r : Result (Unit {0})) (path content : String) → Respects F (write_if sdk r path content)
  unfolding write_if
  write_if-Respects (ok tt) path content = tried F _ (outside F _)
  write_if-Respects (err e) path content = returned F _

  finish_temp-Respects :
      (r : Result (Unit {0})) (path : String) → Respects F (finish_temp sdk r path)
  unfolding finish_temp
  finish_temp-Respects (ok tt) path = returned F path
  finish_temp-Respects (err e) path = bound F _ _ (swept F (sdk.remove_all path)) λ a. failed F _

  write_temp-Respects : (content : String) → Respects F (write_temp_kubeconfig sdk content)
  unfolding write_temp_kubeconfig
  write_temp-Respects content = bound F _ _ (outside_or F code_io _) λ path.
      bound F _ _ (tried F _ (outside F _)) λ private.
        bound F _ _ (write_if-Respects private path content)
          λ written. bound F _ _ (tried F _ (outside F _)) λ closed. finish_temp-Respects _ path

  pub detached-Respects : (cfg : ℕ) → Respects F (detached_configuration sdk cfg)
  unfolding detached_configuration
  detached-Respects cfg = bound F _ _ (derefs F cfg) λ shared. allocates F _

module _ (sdk : Sdk) (F : WideFrame sdk.types) where
  pub made-Respects :
      (opts : ConfigOptions) (namespace : String)
      → Respects F.frame (new_action_configuration sdk opts namespace)
  unfolding new_action_configuration
  made-Respects opts namespace = bound F.frame _ _ (looked F.frame _) λ initial.
      bound F.frame _ _ (looked F.frame _) λ handler. bound F.frame _ _ (allocates F.frame _) λ cfg.
        bound F.frame _ _ (recoded F.frame code_kube _ (acted F cfg _)) λ done. returned F.frame cfg

  -- The private file is removed if there is one.
  swept_if-Respects :
      (b : Bool) (f : Outside sdk.types → Outside sdk.types)
      → Respects F.frame (modify (λ p. if b then record p { outside = f p.outside } else p))
  unfolding modify
  swept_if-Respects true f = record { at = λ p. F.outwards p (f p.outside) }
  swept_if-Respects false f = record { at = λ p. F.here p }

  pub for_namespace-Respects :
      (c : Config) (namespace : String) → Respects F.frame (for_namespace sdk c namespace)
  unfolding for_namespace
  for_namespace-Respects c namespace =
      branched F.frame _ _ _ (returned F.frame c.cfg) (made-Respects c.opts namespace)

  finish_config-Respects :
      (opts : ConfigOptions) (namespace temp : String) (r : Result ℕ)
      → Respects F.frame (finish_config sdk opts namespace temp r)
  unfolding finish_config
  finish_config-Respects opts namespace temp (ok cfg) = records F.frame _
  finish_config-Respects opts namespace temp (err e) =
      bound F.frame _ _ (swept_if-Respects _ (sdk.remove_all temp)) λ a. failed F.frame e

  config_from-Respects :
      (opts : ConfigOptions) (temp : String) → Respects F.frame (config_from sdk opts temp)
  unfolding config_from
  config_from-Respects opts temp =
      bound F.frame _ _ (tried F.frame _ (made-Respects opts _))
        λ made. finish_config-Respects opts _ temp made

  from_content-Respects : (opts : ConfigOptions) → Respects F.frame (config_from_content sdk opts)
  unfolding config_from_content
  from_content-Respects opts =
      bound F.frame _ _ (write_temp-Respects sdk F.frame _) λ path. config_from-Respects _ path

  pub new_config-Respects : (opts : ConfigOptions) → Respects F.frame (new_config sdk opts)
  unfolding new_config
  new_config-Respects opts =
      branched F.frame _ _ _ (failed F.frame _)
        (branched F.frame _ _ _ (from_content-Respects opts) (config_from-Respects opts ""))
