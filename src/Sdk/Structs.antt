-- ===== src/Sdk/Structs.antt =====
-- The opaque types of the Helm SDK, and the SDK structs whose fields the program reads or writes.
use helm_c_sdk.Base.{ℕ, Bool, Option, String, List}
use helm_c_sdk.Base.Int.{ℤ}
use helm_c_sdk.Result.{Result}
use helm_c_sdk.Go.{Outcome}
use helm_c_sdk.Json.{Json}

pub record Types : Type 1 where
  pub World : Type 0
  pub Chart : Type 0
  pub Release : Type 0
  pub Constraint : Type 0
  pub Version : Type 0
  -- *registry.Client
  pub Client : Type 0
  pub Getter : Type 0
  pub Kube : Type 0
  pub Storage : Type 0
  pub Capabilities : Type 0
  pub TemplateFuncs : Type 0
  pub HookOutput : Type 0
  pub Handler : Type 0
  pub KubeVersion : Type 0
  pub PostRenderer : Type 0
  -- common.Values, *repo.IndexFile and *repo.ChartRepository
  pub Values : Type 0
  pub Index : Type 0
  pub Repository : Type 0

-- What other code can change while a call of the SDK runs: the files, the cluster and the network,
-- and which contexts other threads have cancelled.
pub record Outside (t : Types) : Type 0 where
  pub world : t.World
  pub cancelled : List ℕ

-- action.Configuration
pub record Configuration (t : Types) : Type 0 where
  pub logger : t.Handler
  pub rest_client_getter : Option t.Getter
  pub releases : t.Storage
  pub kube_client : t.Kube
  pub registry_client : Option t.Client
  pub capabilities : Option t.Capabilities
  pub custom_template_funcs : t.TemplateFuncs
  pub hook_output_func : t.HookOutput

-- A method of an SDK action that is given the contents of its *Configuration, and may overwrite them.
abbrev pub Action : Types → Type 0 → Type 0
Action t A = Configuration t → Outside t → Outcome A × Configuration t × Outside t

-- cli.EnvSettings. A limit on queries is the mantissa and the exponent of its literal.
pub record Settings : Type 0 where
  pub kube_config : String
  pub kube_context : String
  pub kube_token : String
  pub kube_api_server : String
  pub kube_ca_file : String
  pub kube_tls_server_name : String
  pub kube_insecure_skip_tls_verify : Bool
  pub kube_as_user : String
  pub kube_as_groups : List String
  pub burst_limit : ℤ
  pub qps : ℤ × ℤ
  pub namespace : String
  pub repository_config : String
  pub repository_cache : String
  pub content_cache : String

-- A dependency that Chart.yaml declares.
pub record Dependency : Type 0 where
  pub name : String
  pub version : String
  pub repository : String

-- chart.Accessor, as far as a summary reads it; a field of the metadata may be missing.
pub record ChartAccessor : Type 0 where
  pub name : String
  pub version : Option String
  pub app_version : Option String

-- release.Accessor. `deployed_at` is formatted by RFC 3339, none for the zero time; `chart` is none
-- where the release has no chart, and holds what chart.NewAccessor answers.
pub record ReleaseAccessor : Type 0 where
  pub name : String
  pub namespace : String
  pub version : ℤ
  pub status : String
  pub notes : String
  pub labels : List (String × String)
  pub deployed_at : Option String
  pub chart : Option (Result ChartAccessor)
  pub manifest : String

-- A *release.Release of version 1: the events of each of its hooks, and what marshalJSON makes of the
-- parts that `helm get all` shows.
pub record ReleaseParts : Type 0 where
  pub hook_events : List (List String)
  pub hooks : Json
  pub config : Json
  pub info : Json

-- ocispec.Descriptor
pub record Descriptor : Type 0 where
  pub digest : String
  pub media_type : String
  pub size : ℤ

-- The fields of chart.Metadata that CreateChartFrom sets.
pub record ChartMetadata : Type 0 where
  pub name : String
  pub api_version : String
  pub version : String
  pub app_version : String

-- What downloader.VerifyChart returns; the signers are the keys of a map, in the order of its range.
pub record Verification : Type 0 where
  pub file_name : String
  pub file_hash : String
  pub signers : List String
