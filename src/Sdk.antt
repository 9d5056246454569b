-- ===== src/Sdk.antt =====
-- The code that is not in the repository: the Helm SDK and the operating system. Its types are
-- opaque, and each of its calls may end in any way and do anything to the outside world.
pub mod Structs
pub mod Actions
use helm_c_sdk.Base.{◌≡◌, ℕ, Bool, Option, String, List}
use helm_c_sdk.Base.Int.{ℤ}
use helm_c_sdk.Errors.{Err}
use helm_c_sdk.Result.{Result}
use helm_c_sdk.Go.{Outcome, Go}
use helm_c_sdk.Json.{Json, Fields}
use helm_c_sdk.Sdk.Structs.{
  Types, Configuration, Action, Settings, Outside, Dependency, ReleaseAccessor, ReleaseParts,
  Descriptor, ChartMetadata, Verification,
}
use helm_c_sdk.Sdk.Actions.{
  InstallAction, UpgradeAction, UninstallAction, RollbackAction, ListAction, PullAction, PushAction,
  TestAction, TestRun, LoginOption, ShowAction, ClientOption, RepoEntry, Manager, UninstallResponse,
}

pub record Sdk : Type 1 where
  pub types : Types
  pub open types use *
  -- os and path/filepath
  pub create_temp : String → Go (Outside types) String
  pub chmod_private : String → Go (Outside types) (Unit {0})
  pub write_string : String → String → Go (Outside types) (Unit {0})
  pub close_file : String → Go (Outside types) (Unit {0})
  -- os.RemoveAll through removeBestEffort, whose failure is logged only
  pub remove_all : String → Outside types → Outside types
  pub mkdir_temp : String → Go (Outside types) String
  -- os.Stat, which tells whether the path is a directory
  pub stat : String → Go (Outside types) Bool
  pub read_dir : String → Go (Outside types) (List String)
  pub glob : String → Go (Outside types) (List String)
  pub temp_dir : String
  -- log/slog
  pub discard_handler : Handler
  -- pkg/cli and pkg/action: configurations
  pub cli_new : Outside types → Settings
  pub rest_client_getter : Settings → Getter
  -- The logger of action.NewConfiguration()
  pub default_handler : Handler
  pub new_configuration : Handler → Configuration types
  pub init : Getter → String → String → Action types (Unit {0})
  pub is_reachable : Kube → Go (Outside types) (Unit {0})
  -- pkg/action: the actions, with the defaults of their constructors. A run is given the contents of
  -- its *Configuration, which it may overwrite.
  pub new_install : ℕ → InstallAction types
  pub install_run : InstallAction types → Option ℕ → Chart → Option Fields → Action types Release
  pub new_upgrade : ℕ → UpgradeAction types
  pub upgrade_run :
      UpgradeAction types → Option ℕ → String → Chart → Option Fields → Action types Release
  pub new_uninstall : ℕ → UninstallAction
  pub uninstall_run : UninstallAction → String → Action types (Option (UninstallResponse types))
  pub new_rollback : ℕ → RollbackAction
  pub rollback_run : RollbackAction → String → Action types (Unit {0})
  pub new_list : ℕ → ListAction
  pub list_run : ListAction → Action types (List Release)
  pub status_run : ℤ → String → Action types Release
  pub history_run : String → Action types (List Release)
  pub get_run : ℤ → String → Action types Release
  pub metadata_run : ℤ → String → Action types Json
  pub values_run : Bool → ℤ → String → Action types Json
  pub new_testing : ℕ → TestAction
  pub test_run : TestAction → String → Action types (TestRun types)
  -- GetPodLogs: what it has written, and its error
  pub get_pod_logs : TestAction → Release → Action types (String × Option Err)
  pub compile_regexp : String → Option Err
  pub check_dependencies : Chart → Option Err
  -- pkg/release and pkg/chart accessors
  pub release_accessor : Release → Result ReleaseAccessor
  -- release.NewAccessor(nil)
  pub nil_release : Err
  -- rspb.HookTest
  pub hook_test : String
  -- rel.(*rspb.Release), none where the release is of another version
  pub release_parts : Release → Option ReleaseParts
  pub declared_dependencies : Chart → Result (List Dependency)
  pub chart_name : Chart → String
  pub chart_version : Chart → String
  pub metadata_dependencies : Chart → List Dependency
  pub subcharts : Chart → List Chart
  pub load_chart : String → Go (Outside types) Chart
  -- chartutil.Save: the path of the archive
  pub save_chart : Chart → String → Go (Outside types) String
  pub show_run : ShowAction types → String → Go (Outside types) String
  pub load_archive : List ℕ → Go (Outside types) Chart
  -- What a chart holds; a chart is shared, and other calls may change it.
  pub chart_metadata : Chart → Outside types → Json
  -- the values, as encoding/json renders them, which NaN stops
  pub chart_values : Chart → Outside types → Result Json
  pub chart_files : Chart → Outside types → List (String × String)
  pub chart_templates : Chart → Outside types → List (String × String)
  pub chart_crds : Chart → Outside types → List (String × String × Option String)
  pub chart_schema : Chart → Outside types → String
  -- chartutil, provenance and strvals
  pub validate_release_name : String → Option Err
  pub validate_metadata_name : String → Option Err
  pub save_chart_dir : Chart → String → Go (Outside types) (Unit {0})
  pub expand_file : String → String → Go (Outside types) (Unit {0})
  pub create_chart : String → String → Go (Outside types) String
  pub create_chart_from : ChartMetadata → String → String → Go (Outside types) (Unit {0})
  pub digest_file : String → Go (Outside types) String
  -- the values, and how encoding/json renders them
  pub read_values : String → Result (Result Json)
  pub strvals_parse : String → Result (Result Json)
  pub strvals_parse_string : String → Result (Result Json)
  pub strvals_parse_json : String → Result (Result Json)
  pub strvals_parse_literal : String → Result (Result Json)
  pub strvals_parse_file : String → Go (Outside types) (Result Json)
  -- chart/common/util and downloader
  pub coalesce_values : Chart → Option Fields → Go (Outside types) Values
  pub values_json : Values → Result Json
  pub validate_against_schema : Chart → Values → Go (Outside types) (Unit {0})
  pub verify_chart : String → String → String → Go (Outside types) Verification
  -- pkg/repo; the cache of a download is a directory
  pub new_chart_repository : RepoEntry → Settings → Result Repository
  pub download_index : Repository → String → Go (Outside types) String
  pub load_index : String → Go (Outside types) Index
  pub index_directory : String → String → Go (Outside types) Index
  pub merge_index : Index → Index → Index
  pub sort_entries : Index → Index
  pub write_index : Index → String → Go (Outside types) (Unit {0})
  pub write_index_json : Index → String → Go (Outside types) (Unit {0})
  pub index_json : Index → Result Json
  pub parse_kube_version : String → Result KubeVersion
  pub new_post_renderer : String → List String → Go (Outside types) PostRenderer
  -- pkg/registry, pkg/downloader
  pub is_oci : String → Bool
  pub new_client : List ClientOption → Go (Outside types) Client
  pub login : Client → String → List LoginOption → Go (Outside types) (Unit {0})
  pub logout : Client → String → Go (Outside types) (Unit {0})
  -- A reference without its scheme, as a list of bytes. A nil slice and an empty one are both [].
  pub tags : Client → List ℕ → Go (Outside types) (List String)
  pub resolve : Client → List ℕ → Go (Outside types) Descriptor
  pub push_run : PushAction types → String → String → Go (Outside types) String
  pub pull_run : PullAction types → String → Go (Outside types) String
  pub manager_update : Manager types → Go (Outside types) (Unit {0})
  pub manager_build : Manager types → Go (Outside types) (Unit {0})
  pub write_repo_file : List RepoEntry → String → Go (Outside types) (Unit {0})
  -- github.com/Masterminds/semver
  -- semver.StrictNewVersion accepts the text
  pub strict_version : List ℕ → Bool
  pub new_constraint : String → Result Constraint
  pub new_version : String → Result Version
  pub satisfies : Constraint → Version → Bool

-- The constructors of the SDK's actions keep the *action.Configuration that they are given.
pub record KeepConfiguration (sdk : Sdk) : Type 0 where
  pub install : (c : ℕ) → (sdk.new_install c).cfg ≡ c
  pub upgrade : (c : ℕ) → (sdk.new_upgrade c).cfg ≡ c
