-- ===== src/Wrapper/Upgrade/Frame.antt =====
-- pkg/wrapper/upgrade.go: what an upgrade respects.
use helm_c_sdk.Base.{ℕ, Option, String}
use helm_c_sdk.Json.{Document}
use helm_c_sdk.Options.Upgrade.{UpgradeOptions}
use helm_c_sdk.Sdk.{Sdk}
use helm_c_sdk.Sdk.Actions.{UpgradeAction}
use helm_c_sdk.Process.{Config, Object}
use helm_c_sdk.Process.Respects.{Respects, returned, failed, lifted, tried, bound, branched}
use helm_c_sdk.Process.Respects.Wide.{WideFrame, acted}
use helm_c_sdk.Wrapper.Rendering.Frame.{post_renderer_for-Respects}
use helm_c_sdk.Wrapper.ChartRef.Frame.{chart_for_install-Respects}
use helm_c_sdk.Wrapper.Prologue.Laws.{action_prologue-Respects}
use helm_c_sdk.Wrapper.Upgrade.{apply_upgrade_options, build_upgrade, new_upgrade, upgrade_release}

module _ (sdk : Sdk) (F : WideFrame sdk.types) where
  open sdk use {types}

  options-Respects :
      (up : UpgradeAction types) (opts : UpgradeOptions)
      → Respects F.frame (apply_upgrade_options sdk up opts)
  unfolding apply_upgrade_options
  options-Respects up opts = search (bound, lifted, returned, post_renderer_for-Respects) depth 16

  build-Respects :
      (cfg : Config) (opts : UpgradeOptions) → Respects F.frame (build_upgrade sdk cfg opts)
  unfolding build_upgrade
  build-Respects cfg opts =
      bound F.frame _ _ (lifted F.frame _)
        λ valid. bound F.frame _ _ (lifted F.frame _) λ dry_run. options-Respects _ opts

  new_upgrade-Respects :
      (cfg : Config) (opts : UpgradeOptions) → Respects F.frame (new_upgrade sdk cfg opts)
  unfolding new_upgrade
  new_upgrade-Respects cfg opts =
      branched F.frame _ _ _ (failed F.frame _) (build-Respects cfg opts)

  pub upgrade-Respects :
      (ctx : Option ℕ) (cfg_obj chart_obj : Option (Object types)) (chart_ref name : String)
      (values : Document) (opts : UpgradeOptions)
      → Respects F.frame (upgrade_release sdk ctx cfg_obj chart_obj chart_ref name values opts)
  unfolding upgrade_release
  upgrade-Respects ctx cfg_obj chart_obj chart_ref name values opts =
      bound F.frame _ _ (action_prologue-Respects sdk F.frame ctx cfg_obj values) λ start.
        bound F.frame _ _ (new_upgrade-Respects start.0 opts) λ up.
          bound F.frame _ _ (chart_for_install-Respects sdk F.frame _ _ _ _)
            λ c. bound F.frame _ _ (tried F.frame _ (acted F _ _)) λ rel. lifted F.frame _
