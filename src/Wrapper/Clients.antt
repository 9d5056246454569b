-- ===== src/Wrapper/Clients.antt =====
-- pkg/wrapper/registry.go and pkg/wrapper/distribution.go: which registry client an operation uses,
-- and the download of a chart.
pub mod Frame
pub mod Scratch
pub mod Remote
use Prim.Native.String.{◌++◌}
use helm_c_sdk.Base.{
  Bool, true, false, not, ◌||◌, Option, none, some, String, List, [], ◌∷◌, str_eq, if◌then◌else◌,
}
use mathlib.Core.List.{◌++◌ as append}
use helm_c_sdk.Errors.{code_registry, code_repo}
use helm_c_sdk.Result.{Result, ok, err}
use helm_c_sdk.Go.{Go, pure, lift, gets, ◌>>=◌, with_error_code, deferred}
use helm_c_sdk.Json.{Json, text, object, field, no_fields}
use helm_c_sdk.Options.Client.{RegistryClientOptions, no_registry_client_options}
use helm_c_sdk.Options.Transfer.{PullOptions}
use helm_c_sdk.Sdk.{Sdk}
use helm_c_sdk.Sdk.Structs.{Settings}
use helm_c_sdk.Sdk.Actions.{
  ClientOption, writer, debug, plain_http, credentials_file, basic_auth, PullAction,
}
use helm_c_sdk.Process.{Object, Process}
use helm_c_sdk.Process.Heap.{outer}
use helm_c_sdk.Wrapper.Settings.{private_temp_dir, settings_in_dir, remove_best_effort}
use helm_c_sdk.Wrapper.Charts.{as_registry_client}

abbrev when : Bool → ClientOption → List ClientOption
when true o = o ∷ []
when false o = []

-- The options that NewRegistryClient collects.
unfoldable pub client_options : RegistryClientOptions → List ClientOption
client_options opts =
    writer
    ∷ append (when opts.debug debug) (
        append (when opts.plain_http plain_http) (
          append
            (when (not (str_eq opts.credentials_file "")) (credentials_file opts.credentials_file))
            (when (not (str_eq opts.username "") || not (str_eq opts.password ""))
              (basic_auth opts.username opts.password))))

module _ (sdk : Sdk) where
  open sdk use {types, Client}

  -- NewRegistryClient
  unfoldable pub new_registry_client : RegistryClientOptions → Go (Process types) Client
  new_registry_client opts =
      with_error_code code_registry (outer (sdk.new_client (client_options opts)))

  some_client : Go (Process types) Client → Go (Process types) (Option Client)
  some_client m = do c ← m; pure (some c)

  -- defaultClientFor
  unfoldable pub default_client_for :
      Option Client → Bool → Bool → Go (Process types) (Option Client)
  unfolding some_client
  default_client_for (some c) needed plain = pure (some c)
  default_client_for none false plain = pure none
  default_client_for none true plain =
      some_client (new_registry_client (record no_registry_client_options { plain_http = plain }))

  -- resolveClient
  unfoldable pub resolve_client :
      Option (Object types) → Bool → Bool → Go (Process types) (Option Client)
  resolve_client none needed plain = default_client_for none needed plain
  resolve_client (some obj) needed plain = do
    c ← lift (as_registry_client sdk (some obj))
    default_client_for (some c) needed plain

  abbrev pub or_here : String → String
  or_here dir = if str_eq dir "" then "." else dir

  pull_action : Option Client → Settings → PullOptions → PullAction types
  pull_action client settings opts = record {
    registry_client = client;
    settings = settings;
    dest_dir = or_here opts.dest_dir;
    version = opts.version;
    repo_url = opts.repo_url;
    untar = opts.untar;
    untar_dir = opts.untar_dir;
    plain_http = opts.plain_http;
    insecure_skip_tls_verify = opts.insecure_skip_tls_verify;
    username = opts.username;
    password = opts.password;
    ca_file = opts.ca_file;
    cert_file = opts.cert_file;
    key_file = opts.key_file;
    pass_credentials_all = opts.pass_credentials_all;
    verify = opts.verify;
    verify_later = opts.verify_later;
    keyring = opts.keyring;
    devel = opts.devel;
  }

  pull_with : Option Client → String → String → PullOptions → Go (Process types) Json
  unfolding pull_action
  pull_with client scratch chart_ref opts = do
    settings ← gets (λ p. settings_in_dir sdk scratch p.outside)
    out ←
        with_error_code code_repo
          (outer (sdk.pull_run (pull_action client settings opts) chart_ref))
    pure (object (field "output" (text out) no_fields))

  -- PullChart
  unfoldable pub pull_chart : Option (Object types) → String → PullOptions → Go (Process types) Json
  unfolding pull_with
  pull_chart client_obj chart_ref opts = do
    client ← resolve_client client_obj (sdk.is_oci chart_ref) opts.plain_http
    scratch ← private_temp_dir sdk "pull"
    deferred (pull_with client scratch chart_ref opts) (remove_best_effort sdk scratch)
