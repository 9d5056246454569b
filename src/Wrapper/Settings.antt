-- ===== src/Wrapper/Settings.antt =====
-- pkg/wrapper/settings.go, and removeBestEffort of pkg/wrapper/config.go. Paths are joined with one
-- slash, which is what filepath.Join does with the clean paths that are joined here.
pub mod Frame
use Prim.Native.String.{◌++◌}
use helm_c_sdk.Base.{String}
use helm_c_sdk.Errors.{code_io}
use helm_c_sdk.Go.{Go, modify, with_error_code}
use helm_c_sdk.Sdk.{Sdk}
use helm_c_sdk.Sdk.Structs.{Settings, Outside}
use helm_c_sdk.Process.{Process}
use helm_c_sdk.Process.Heap.{outer}

abbrev pub path_join : String → String → String
path_join a b = a ++ ("/" ++ b)

-- Where an EnvSettings keeps repositories and caches.
abbrev pub settings_under : String → Settings → Settings
settings_under dir s = record s {
  repository_config = path_join dir "repositories.yaml";
  repository_cache = path_join dir "repository";
  content_cache = path_join dir "content";
}

module _ (sdk : Sdk) where
  open sdk use {types}

  -- newSettings
  unfoldable pub new_settings : Outside types → Settings
  new_settings o = settings_under (path_join sdk.temp_dir "helm-c-private") (sdk.cli_new o)

  -- settingsInDir
  unfoldable pub settings_in_dir : String → Outside types → Settings
  unfolding new_settings
  settings_in_dir dir o = settings_under dir (new_settings o)

  -- privateTempDir
  unfoldable pub private_temp_dir : String → Go (Process types) String
  private_temp_dir prefix =
      with_error_code code_io (outer (sdk.mkdir_temp ("helm-c-" ++ (prefix ++ "-*"))))

  -- removeBestEffort: a failure is only logged
  abbrev pub remove_best_effort : String → Process types → Process types
  remove_best_effort path p = record p { outside = sdk.remove_all path p.outside }
