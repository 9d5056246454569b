-- ===== src/Wrapper/Install/Frame.antt =====
-- pkg/wrapper/install.go: what an install respects.
use helm_c_sdk.Base.{ℕ, Option, String}
use helm_c_sdk.Json.{Document}
use helm_c_sdk.Options.Install.{InstallOptions}
use helm_c_sdk.Sdk.{Sdk}
use helm_c_sdk.Sdk.Actions.{InstallAction}
use helm_c_sdk.Process.{Config, Object}
use helm_c_sdk.Process.Respects.{Respects, returned, lifted, tried, bound, branched}
use helm_c_sdk.Process.Respects.Wide.{WideFrame, acted}
use helm_c_sdk.Wrapper.Config.Frame.{for_namespace-Respects, detached-Respects}
use helm_c_sdk.Wrapper.Rendering.Frame.{post_renderer_for-Respects}
use helm_c_sdk.Wrapper.ChartRef.Frame.{chart_for_install-Respects}
use helm_c_sdk.Wrapper.Prologue.Laws.{action_prologue-Respects}
use helm_c_sdk.Wrapper.Install.{
  apply_install_options, install_configuration, new_install, install_release,
}

module _ (sdk : Sdk) (F : WideFrame sdk.types) where
  open sdk use {types}

  options-Respects :
      (inst : InstallAction types) (opts : InstallOptions)
      → Respects F.frame (apply_install_options sdk inst opts)
  unfolding apply_install_options
  options-Respects inst opts = search (bound, lifted, returned, post_renderer_for-Respects) depth 16

  configuration-Respects :
      (cfg : Config) (namespace dry_run : String)
      → Respects F.frame (install_configuration sdk cfg namespace dry_run)
  unfolding install_configuration
  configuration-Respects cfg namespace dry_run =
      bound F.frame _ _ (for_namespace-Respects sdk F cfg namespace)
        λ own. branched F.frame _ _ _ (detached-Respects sdk F.frame own) (returned F.frame own)

  new_install-Respects :
      (cfg : Config) (name : String) (opts : InstallOptions)
      → Respects F.frame (new_install sdk cfg name opts)
  unfolding new_install
  new_install-Respects cfg name opts = bound F.frame _ _ (lifted F.frame _) λ dry_run.
      bound F.frame _ _ (configuration-Respects cfg _ dry_run) λ c. options-Respects _ opts

  pub install-Respects :
      (ctx : Option ℕ) (cfg_obj chart_obj : Option (Object types)) (chart_ref name : String)
      (values : Document) (opts : InstallOptions)
      → Respects F.frame (install_release sdk ctx cfg_obj chart_obj chart_ref name values opts)
  unfolding install_release
  install-Respects ctx cfg_obj chart_obj chart_ref name values opts =
      bound F.frame _ _ (action_prologue-Respects sdk F.frame ctx cfg_obj values) λ start.
        bound F.frame _ _ (new_install-Respects start.0 name opts) λ inst.
          bound F.frame _ _ (chart_for_install-Respects sdk F.frame _ _ _ _)
            λ c. bound F.frame _ _ (tried F.frame _ (acted F _ _)) λ rel. lifted F.frame _
