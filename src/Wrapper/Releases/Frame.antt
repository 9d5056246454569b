-- ===== src/Wrapper/Releases/Frame.antt =====
-- pkg/wrapper/release_actions.go: what the release actions respect.
use helm_c_sdk.Base.{ℕ, Option, String}
use helm_c_sdk.Result.{Result}
use helm_c_sdk.Go.{Go, lift, attempt, ◌>>=◌}
use helm_c_sdk.Options.Release.{
  UninstallOptions, RollbackOptions, StatusOptions, HistoryOptions, GetOptions, GetMetadataOptions,
  GetValuesOptions,
}
use helm_c_sdk.Options.Listing.{ListOptions}
use helm_c_sdk.Sdk.{Sdk}
use helm_c_sdk.Sdk.Structs.{Action}
use helm_c_sdk.Process.{Config, Object, Process}
use helm_c_sdk.Process.Heap.{act_at}
use helm_c_sdk.Process.Respects.{Respects, returned, lifted, derefs_config, tried, bound, branched}
use helm_c_sdk.Process.Respects.Wide.{WideFrame, acted}
use helm_c_sdk.Wrapper.Config.Frame.{for_namespace-Respects}
use helm_c_sdk.Wrapper.Releases.{
  with_config, uninstall, uninstall_release, rollback, rollback_release, list, list_releases,
  status, status_release, history, history_release,
}
use helm_c_sdk.Wrapper.Releases.Inspect.{
  get_from, get_release, metadata_from, get_release_metadata, values_from, get_release_values,
}

module _ (sdk : Sdk) (F : WideFrame sdk.types) where
  open sdk use {types}

  pub with_config-Respects :
      {A : Type 0} (obj : Option (Object types)) (run : Config → Go (Process types) A)
      → ((cfg : Config) → Respects F.frame (run cfg))
      → Respects F.frame (with_config sdk obj run)
  unfolding with_config
  with_config-Respects obj run k =
      bound F.frame _ _ (lifted F.frame _) λ ref. bound F.frame _ _ (derefs_config F.frame ref) k

  -- An action, and what is made of its answer.
  answered :
      {A B : Type 0} (cfg : ℕ) (act : Action types A) (f : Result A → Result B)
      → Respects F.frame (attempt (act_at cfg act) >>= (λ r. lift (f r)))
  answered cfg act f = bound F.frame _ _ (tried F.frame _ (acted F cfg act)) λ r. lifted F.frame _

  uninstalls :
      (name : String) (opts : UninstallOptions) (cfg : Config)
      → Respects F.frame (uninstall sdk name opts cfg)
  unfolding uninstall
  uninstalls name opts cfg = bound F.frame _ _ (lifted F.frame _) λ valid. answered cfg.cfg _ _

  rolls_back :
      (name : String) (opts : RollbackOptions) (cfg : Config)
      → Respects F.frame (rollback sdk name opts cfg)
  unfolding rollback
  rolls_back name opts cfg =
      bound F.frame _ _ (lifted F.frame _)
        λ valid. bound F.frame _ _ (lifted F.frame _) λ dry_run. answered cfg.cfg _ _

  lists : (opts : ListOptions) (cfg : Config) → Respects F.frame (list sdk opts cfg)
  unfolding list
  lists opts cfg = bound F.frame _ _ (lifted F.frame _) λ valid.
      bound F.frame _ _
        (branched F.frame _ _ _ (for_namespace-Respects sdk F cfg "") (returned F.frame cfg.cfg))
        λ action_cfg. answered action_cfg _ _

  pub uninstall_release-Respects :
      (obj : Option (Object types)) (name : String) (opts : UninstallOptions)
      → Respects F.frame (uninstall_release sdk obj name opts)
  unfolding uninstall_release
  uninstall_release-Respects obj name opts = with_config-Respects obj _ (uninstalls name opts)

  pub rollback_release-Respects :
      (obj : Option (Object types)) (name : String) (opts : RollbackOptions)
      → Respects F.frame (rollback_release sdk obj name opts)
  unfolding rollback_release
  rollback_release-Respects obj name opts = with_config-Respects obj _ (rolls_back name opts)

  pub list_releases-Respects :
      (obj : Option (Object types)) (opts : ListOptions)
      → Respects F.frame (list_releases sdk obj opts)
  unfolding list_releases
  list_releases-Respects obj opts = with_config-Respects obj _ (lists opts)

  pub status_release-Respects :
      (obj : Option (Object types)) (name : String) (opts : StatusOptions)
      → Respects F.frame (status_release sdk obj name opts)
  unfolding status_release
  status_release-Respects obj name opts =
      with_config-Respects obj _ λ cfg. unfold status in answered cfg.cfg _ _

  pub history_release-Respects :
      (obj : Option (Object types)) (name : String) (opts : HistoryOptions)
      → Respects F.frame (history_release sdk obj name opts)
  unfolding history_release
  history_release-Respects obj name opts =
      with_config-Respects obj _ λ cfg. unfold history in answered cfg.cfg _ _

  pub get_release-Respects :
      (obj : Option (Object types)) (name : String) (opts : GetOptions)
      → Respects F.frame (get_release sdk obj name opts)
  unfolding get_release
  get_release-Respects obj name opts =
      with_config-Respects obj _ λ cfg. unfold get_from in answered cfg.cfg _ _

  pub get_metadata-Respects :
      (obj : Option (Object types)) (name : String) (opts : GetMetadataOptions)
      → Respects F.frame (get_release_metadata sdk obj name opts)
  unfolding get_release_metadata
  get_metadata-Respects obj name opts =
      with_config-Respects obj _ λ cfg. unfold metadata_from in answered cfg.cfg _ _

  pub get_values-Respects :
      (obj : Option (Object types)) (name : String) (opts : GetValuesOptions)
      → Respects F.frame (get_release_values sdk obj name opts)
  unfolding get_release_values
  get_values-Respects obj name opts =
      with_config-Respects obj _ λ cfg. unfold values_from in answered cfg.cfg _ _
