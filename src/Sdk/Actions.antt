-- ===== src/Sdk/Actions.antt =====
-- The action structs of the Helm SDK. A field `cfg` is the *action.Configuration the action works on.
use helm_c_sdk.Base.{ℕ, Bool, Option, String, List}
use helm_c_sdk.Base.Int.{ℤ}
use helm_c_sdk.Json.Decode.{StringMap}
use helm_c_sdk.Errors.{Err}
use helm_c_sdk.Go.{Go}
use helm_c_sdk.Sdk.Structs.{Types, Settings, Outside}

-- downloader.VerificationStrategy
pub data VerificationStrategy : Type 0 where
  verify_never verify_always verify_if_possible verify_later : VerificationStrategy

pub record InstallAction (t : Types) : Type 0 where
  pub cfg : ℕ
  pub release_name : String
  pub namespace : String
  pub dry_run_strategy : String
  pub timeout : ℤ
  pub wait_strategy : String
  pub server_side_apply : Bool
  pub create_namespace : Bool
  pub rollback_on_failure : Bool
  pub description : String
  pub labels : StringMap
  pub disable_hooks : Bool
  pub force_replace : Bool
  pub force_conflicts : Bool
  pub replace : Bool
  pub skip_crds : Bool
  pub wait_for_jobs : Bool
  pub take_ownership : Bool
  pub sub_notes : Bool
  pub hide_notes : Bool
  pub hide_secret : Bool
  pub skip_schema_validation : Bool
  pub disable_openapi_validation : Bool
  pub enable_dns : Bool
  pub devel : Bool
  pub dependency_update : Bool
  pub kube_version : Option t.KubeVersion
  pub api_versions : List String
  pub post_renderer : Option t.PostRenderer
  pub post_render_strategy : String

pub record UpgradeAction (t : Types) : Type 0 where
  pub cfg : ℕ
  pub namespace : String
  pub dry_run_strategy : String
  pub timeout : ℤ
  pub wait_strategy : String
  pub server_side_apply : String
  pub max_history : ℤ
  pub reset_values : Bool
  pub reuse_values : Bool
  pub reset_then_reuse_values : Bool
  pub cleanup_on_fail : Bool
  pub rollback_on_failure : Bool
  pub description : String
  pub labels : StringMap
  pub install : Bool
  pub disable_hooks : Bool
  pub force_replace : Bool
  pub force_conflicts : Bool
  pub skip_crds : Bool
  pub wait_for_jobs : Bool
  pub take_ownership : Bool
  pub sub_notes : Bool
  pub hide_notes : Bool
  pub hide_secret : Bool
  pub skip_schema_validation : Bool
  pub disable_openapi_validation : Bool
  pub enable_dns : Bool
  pub devel : Bool
  pub dependency_update : Bool
  pub post_renderer : Option t.PostRenderer
  pub post_render_strategy : String

pub record UninstallAction : Type 0 where
  pub cfg : ℕ
  pub timeout : ℤ
  pub wait_strategy : String
  pub keep_history : Bool
  pub dry_run : Bool
  pub ignore_not_found : Bool
  pub description : String
  pub disable_hooks : Bool
  pub deletion_propagation : String

pub record RollbackAction : Type 0 where
  pub cfg : ℕ
  pub dry_run_strategy : String
  pub timeout : ℤ
  pub wait_strategy : String
  pub server_side_apply : String
  pub version : ℤ
  pub wait_for_jobs : Bool
  pub disable_hooks : Bool
  pub force_replace : Bool
  pub force_conflicts : Bool
  pub cleanup_on_fail : Bool
  pub max_history : ℤ

-- The last field is set by SetStateMask.
pub record ListAction : Type 0 where
  pub cfg : ℕ
  pub all : Bool
  pub all_namespaces : Bool
  pub limit : ℤ
  pub offset : ℤ
  pub filter : String
  pub selector : String
  pub by_date : Bool
  pub sort_reverse : Bool
  pub deployed : Bool
  pub failed : Bool
  pub pending : Bool
  pub superseded : Bool
  pub uninstalled : Bool
  pub uninstalling : Bool
  pub state_mask_set : Bool

pub record PullAction (t : Types) : Type 0 where
  pub registry_client : Option t.Client
  pub settings : Settings
  pub dest_dir : String
  pub version : String
  pub repo_url : String
  pub untar : Bool
  pub untar_dir : String
  pub plain_http : Bool
  pub insecure_skip_tls_verify : Bool
  pub username : String
  pub password : String
  pub ca_file : String
  pub cert_file : String
  pub key_file : String
  pub pass_credentials_all : Bool
  pub verify : Bool
  pub verify_later : Bool
  pub keyring : String
  pub devel : Bool

-- downloader.Manager
pub record Manager (t : Types) : Type 0 where
  pub chart_path : String
  pub registry_client : Option t.Client
  pub repository_config : String
  pub repository_cache : String
  pub content_cache : String
  pub skip_update : Bool
  pub keyring : String
  pub verify : VerificationStrategy
  pub debug : Bool

-- *release.UninstallReleaseResponse
pub record UninstallResponse (t : Types) : Type 0 where
  pub info : String
  pub release : Option t.Release

-- registry.ClientOption
pub data ClientOption : Type 0 where
  writer : ClientOption
  debug : ClientOption
  plain_http : ClientOption
  credentials_file : String → ClientOption
  basic_auth : String → String → ClientOption

-- repo.Entry
pub record RepoEntry : Type 0 where
  pub name : String
  pub url : String
  pub username : String
  pub password : String
  pub cert_file : String
  pub key_file : String
  pub ca_file : String
  pub insecure_skip_tls_verify : Bool
  pub pass_credentials_all : Bool

-- action.IncludeNameFilter and action.ExcludeNameFilter
pub data FilterKey : Type 0 where
  include_name exclude_name : FilterKey

-- action.ReleaseTesting; Filters is a map with two keys at most.
pub record TestAction : Type 0 where
  pub cfg : ℕ
  pub namespace : String
  pub timeout : ℤ
  pub filters : List (FilterKey × List String)

-- What ReleaseTesting.Run returns: the release, the function that deletes the test pods, and the error.
-- Any of the three may be nil, in any combination.
pub record TestRun (t : Types) : Type 0 where
  pub release : Option t.Release
  pub shutdown : Option (Go (Outside t) (Unit {0}))
  pub failure : Option Err

-- registry.LoginOption
pub data LoginOption : Type 0 where
  login_basic_auth : String → String → LoginOption
  login_insecure : Bool → LoginOption
  login_plain_text : Bool → LoginOption
  login_tls_client_config : String → String → String → LoginOption

-- action.Push, with the options of its constructor and the client of its configuration
pub record PushAction (t : Types) : Type 0 where
  pub registry_client : Option t.Client
  pub plain_http : Bool
  pub insecure_skip_tls_verify : Bool
  pub cert_file : String
  pub key_file : String
  pub ca_file : String
  pub settings : Settings

-- action.Show, on a configuration of its own
pub record ShowAction (t : Types) : Type 0 where
  pub format : String
  pub devel : Bool
  pub registry_client : Option t.Client
