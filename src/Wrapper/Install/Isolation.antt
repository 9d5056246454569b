-- ===== src/Wrapper/Install/Isolation.antt =====
-- pkg/wrapper/install.go: installs against fakes and shared configurations, and a cancelled
-- context.
use helm_c_sdk.Base.{ℕ, true, false, Option, some, String, refl, ◌≡◌, ◌≢◌, sym, ◌∙◌, ◌<◌}
use helm_c_sdk.Errors.{code_cancelled, from_error}
use helm_c_sdk.Base.Assoc.{lookup}
use helm_c_sdk.Result.{ok, ok-injective}
use helm_c_sdk.Go.{fails}
use helm_c_sdk.Sdk.{Sdk, KeepConfiguration}
use helm_c_sdk.Process.{Config, Object, Process}
use helm_c_sdk.Process.Frame.{
  Spares, Any, Spares-pure, Spares-bind, Spares-then, Spares-attempt, Spares-lift_ok, Spares-act_at,
}
use helm_c_sdk.Process.Frame.Sparing.{sparing, spared}
use helm_c_sdk.Process.Respects.{lifted}
use helm_c_sdk.Json.{Document}
use helm_c_sdk.Go.Laws.{bind-fails}
use helm_c_sdk.Options.Install.{InstallOptions}
use helm_c_sdk.Sdk.Actions.{InstallAction}
use helm_c_sdk.Wrapper.Strategies.{parse_dry_run, interacts_with_server, dry_run_client}
use helm_c_sdk.Wrapper.Config.Siblings.{for_namespace-keeps, detached-Spares}
use helm_c_sdk.Wrapper.Rendering.Frame.{post_renderer_for-Respects}
use helm_c_sdk.Wrapper.ChartRef.Frame.{chart_for_install-Respects}
use helm_c_sdk.Wrapper.Prologue.{is_cancelled}
use helm_c_sdk.Wrapper.Prologue.Laws.{
  action_prologue-Respects, action_prologue-cancelled, cancelled_error,
}
use helm_c_sdk.Wrapper.Install.{
  apply_install_options, install_configuration, new_install, install_release,
}

module _ (sdk : Sdk) (ref : ℕ) where
  open sdk use {types}

  abbrev Apart : InstallAction types → Type 0
  Apart inst = inst.cfg ≢ ref

  apply_install_options-Spares :
      (inst : InstallAction types) (opts : InstallOptions)
      → Apart inst
      → Spares ref Apart (apply_install_options sdk inst opts)
  unfolding apply_install_options
  apply_install_options-Spares inst opts apart =
      Spares-then ref Apart _ _ (spared ref _ (lifted (sparing ref) _)) λ kv.
        Spares-then ref Apart _ _ (spared ref _ (post_renderer_for-Respects sdk (sparing ref) _ _))
          λ pr.
            Spares-then ref Apart _ _ (spared ref _ (lifted (sparing ref) _))
              λ strategy. Spares-pure ref Apart _ apart

  install_configuration-Spares :
      (cfg : Config) (namespace dry_run : String)
      → interacts_with_server dry_run ≡ false
      → Spares ref (λ c. c ≢ ref) (install_configuration sdk cfg namespace dry_run)
  unfolding install_configuration
  install_configuration-Spares cfg namespace dry_run off = rw off (
      Spares-then ref _ _ _ (for_namespace-keeps sdk ref cfg namespace)
        λ own. detached-Spares sdk ref own)

  new_install-Spares :
      (cfg : Config) (name : String) (opts : InstallOptions)
      → KeepConfiguration sdk
      → ((d : String) → parse_dry_run opts.dry_run ≡ ok d → interacts_with_server d ≡ false)
      → Spares ref Apart (new_install sdk cfg name opts)
  unfolding new_install
  new_install-Spares cfg name opts keep client =
      Spares-bind ref (λ d. interacts_with_server d ≡ false) Apart _ _
        (Spares-lift_ok ref _ _ client)
        λ d off.
          Spares-bind ref (λ c. c ≢ ref) Apart _ _ (install_configuration-Spares cfg _ d off)
            λ c ne. apply_install_options-Spares _ opts λ e. ne (sym (keep.install c) ∙ e)

  install_release-Spares :
      (ctx : Option ℕ) (cfg_obj chart_obj : Option (Object types)) (chart_ref name : String)
      (values : Document) (opts : InstallOptions)
      → KeepConfiguration sdk
      → ((d : String) → parse_dry_run opts.dry_run ≡ ok d → interacts_with_server d ≡ false)
      → Spares ref Any (install_release sdk ctx cfg_obj chart_obj chart_ref name values opts)
  unfolding install_release
  install_release-Spares ctx cfg_obj chart_obj chart_ref name values opts keep client =
      Spares-then ref Any _ _
        (spared ref _ (action_prologue-Respects sdk (sparing ref) ctx cfg_obj values))
        λ start.
          Spares-bind ref Apart Any _ _ (new_install-Spares start.0 name opts keep client)
            λ inst ne.
              Spares-then ref Any _ _
                (spared ref _ (chart_for_install-Respects sdk (sparing ref) _ _ _ _))
                λ c.
                  Spares-then ref Any _ _
                    (Spares-attempt ref Any _
                      (Spares-act_at ref Any _ (sdk.install_run inst ctx c start.1) ne (λ a. tt)))
                    λ rel. spared ref _ (lifted (sparing ref) _)

only_client :
    (s : String)
    → parse_dry_run s ≡ ok dry_run_client
    → (d : String) → parse_dry_run s ≡ ok d
    → interacts_with_server d ≡ false
unfolding interacts_with_server
only_client s e d h = rw (← ok-injective (sym e ∙ h)) refl

-- A client-side dry run leaves every *action.Configuration that exists as it is, whatever else
-- happens: whether the call succeeds, fails or panics, wherever the chart comes from, in whatever
-- namespace, and whatever the SDK writes into the configuration that it is given. The dry run is asked
-- for by a text that parseDryRun reads as "client", and the SDK's NewInstall keeps the configuration
-- that it gets.
pub client_install_isolated :
    (sdk : Sdk) (keep : KeepConfiguration sdk) (ctx : Option ℕ)
    (cfg_obj chart_obj : Option (Object sdk.types)) (chart_ref name : String) (values : Document)
    (opts : InstallOptions) (ref : ℕ) (p : Process sdk.types)
    → parse_dry_run opts.dry_run ≡ ok dry_run_client
    → ref < p.next_ref
    → let (r, q) = install_release sdk ctx cfg_obj chart_obj chart_ref name values opts p in
      lookup ref q.configurations ≡ lookup ref p.configurations
client_install_isolated sdk keep ctx cfg_obj chart_obj chart_ref name values opts ref p client h =
    ((install_release-Spares sdk ref ctx cfg_obj chart_obj chart_ref name values opts keep
        (only_client opts.dry_run client)).at
      p h).0

-- An install whose context is cancelled when it is called ends at once with the cancelled code and
-- changes nothing: no chart is loaded, no configuration is made, and the SDK is not called.
pub cancelled_install_refused :
    (sdk : Sdk) (ctx : Option ℕ) (cfg_obj chart_obj : Option (Object sdk.types))
    (chart_ref name : String) (values : Document) (opts : InstallOptions) (p : Process sdk.types)
    → is_cancelled sdk ctx p ≡ true
    → (install_release sdk ctx cfg_obj chart_obj chart_ref name values opts p
        ≡ (fails cancelled_error, p))
      × (from_error (some cancelled_error) ≡ code_cancelled)
unfolding install_release from_error
cancelled_install_refused sdk ctx cfg_obj chart_obj chart_ref name values opts p e = (
  bind-fails _ _ p p cancelled_error (action_prologue-cancelled sdk ctx cfg_obj values p e),
  refl,
)
