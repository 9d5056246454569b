-- ===== src/Wrapper/Dependencies.antt =====
-- pkg/wrapper/dependency.go and verificationStrategy's caller: resolving a chart's dependencies in a
-- private cache, and the status of each of them.
pub mod Frame
pub mod Repos
pub mod Status
use Prim.Native.String.{◌++◌}
use helm_c_sdk.Base.{
  ℕ, Bool, true, false, ◌&&◌, Option, none, some, String, List, [], ◌∷◌, str_eq, if◌then◌else◌,
}
use helm_c_sdk.Errors.{Err, code_io, code_repo}
use helm_c_sdk.Result.{Result, ok, err}
use helm_c_sdk.Go.{
  Go, pure, fail, lift, gets, modify, ◌>>=◌, ◌>>◌, with_error_code, attempt, deferred,
}
use helm_c_sdk.Options.Dependency.{DependencyOptions}
use helm_c_sdk.Sdk.{Sdk}
use helm_c_sdk.Sdk.Structs.{Settings}
use helm_c_sdk.Sdk.Actions.{VerificationStrategy, verify_always, Manager}
use helm_c_sdk.Process.{Process}
use helm_c_sdk.Process.Heap.{outer}
use helm_c_sdk.Wrapper.Strategies.{verification_strategy}
use helm_c_sdk.Wrapper.Settings.{private_temp_dir, settings_in_dir, remove_best_effort}
use helm_c_sdk.Wrapper.Charts.{load_chart}
use helm_c_sdk.Wrapper.Clients.{default_client_for}
use Repos.{repo_entries}

abbrev pub chosen_verification : DependencyOptions → VerificationStrategy → VerificationStrategy
chosen_verification opts v = if opts.verify && str_eq opts.verify_mode "" then verify_always else v

module _ (sdk : Sdk) where
  open sdk use {types, Client}

  -- writeRepoConfig
  unfoldable pub write_repo_config :
      String → String → DependencyOptions → Go (Process types) (Unit {0})
  write_repo_config chart_dir path opts = do
    c ← load_chart sdk chart_dir
    with_error_code code_io
        (outer (sdk.write_repo_file (repo_entries opts (sdk.metadata_dependencies c)) path))

  -- `if err != nil { removeBestEffort(cacheDir); return err }`
  abbrev pub or_remove : {A : Type 0} → String → Result A → Go (Process types) A
  or_remove dir (ok a) = pure a
  or_remove dir (err e) = do modify (remove_best_effort sdk dir); fail e

  manager_for :
      String → DependencyOptions → VerificationStrategy → Settings → Option Client → Manager types
  manager_for chart_dir opts v settings client = record {
    chart_path = chart_dir;
    registry_client = client;
    repository_config = settings.repository_config;
    repository_cache = settings.repository_cache;
    content_cache = settings.content_cache;
    skip_update = opts.skip_refresh;
    keyring = opts.keyring;
    verify = chosen_verification opts v;
    debug = opts.debug;
  }

  -- dependencyManager: the manager, and the directory to remove
  unfoldable pub dependency_manager :
      String → DependencyOptions → Go (Process types) (Manager types × String)
  unfolding manager_for
  dependency_manager chart_dir opts = do
    v ← lift (verification_strategy opts.verify_mode)
    cache ← private_temp_dir sdk "deps"
    settings ← gets (λ p. settings_in_dir sdk cache p.outside)
    written ← attempt (write_repo_config chart_dir settings.repository_config opts)
    or_remove cache written
    made ← attempt (default_client_for sdk none true opts.plain_http)
    client ← or_remove cache made
    pure (manager_for chart_dir opts v settings client, cache)

  run_manager :
      (Manager types → Go (Process types) (Unit {0}))
      → Manager types × String
      → Go (Process types) (Unit {0})
  run_manager act (m, cache) =
      deferred (with_error_code code_repo (act m)) (remove_best_effort sdk cache)

  -- DependencyUpdate
  unfoldable pub dependency_update : String → DependencyOptions → Go (Process types) (Unit {0})
  unfolding run_manager
  dependency_update chart_dir opts = do
    m ← dependency_manager chart_dir opts
    run_manager (λ m. outer (sdk.manager_update m)) m

  -- DependencyBuild
  unfoldable pub dependency_build : String → DependencyOptions → Go (Process types) (Unit {0})
  unfolding run_manager
  dependency_build chart_dir opts = do
    m ← dependency_manager chart_dir opts
    run_manager (λ m. outer (sdk.manager_build m)) m
