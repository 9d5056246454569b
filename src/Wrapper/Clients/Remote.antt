-- ===== src/Wrapper/Clients/Remote.antt =====
-- pkg/wrapper/registry.go and PushChart of pkg/wrapper/distribution.go: an OCI registry, by its client.
pub mod Frame
use helm_c_sdk.Base.{ℕ, true, not, ◌||◌, Option, String, List, [], ◌∷◌, str_eq, if◌then◌else◌}
use helm_c_sdk.Base.Text.{codes, trim_prefix}
use helm_c_sdk.Base.Int.{pos}
use helm_c_sdk.Errors.{code_registry}
use helm_c_sdk.Go.{Go, pure, lift, gets, ◌>>=◌, with_error_code}
use helm_c_sdk.Json.{Json, Items, no_items, item, text, number, array, object, field, no_fields}
use helm_c_sdk.Options.Client.{LoginOptions}
use helm_c_sdk.Options.Transfer.{PushOptions}
use helm_c_sdk.Sdk.{Sdk}
use helm_c_sdk.Sdk.Structs.{Settings, Descriptor}
use helm_c_sdk.Sdk.Actions.{
  LoginOption, login_basic_auth, login_insecure, login_plain_text, login_tls_client_config,
  PushAction,
}
use helm_c_sdk.Process.{Object, Process}
use helm_c_sdk.Process.Heap.{outer}
use helm_c_sdk.Wrapper.Settings.{new_settings}
use helm_c_sdk.Wrapper.Charts.{as_registry_client}
use helm_c_sdk.Wrapper.Clients.{resolve_client}

-- The options that RegistryLogin collects.
unfoldable pub login_options : String → String → LoginOptions → List LoginOption
login_options username password opts =
    login_basic_auth username password
    ∷ login_insecure opts.insecure
    ∷ login_plain_text opts.plain_http
    ∷ (if not (str_eq opts.cert_file "")
          || not (str_eq opts.key_file "")
          || not (str_eq opts.ca_file "")
        then login_tls_client_config opts.cert_file opts.key_file opts.ca_file ∷ []
        else [])

-- bareRef, as a list of bytes
unfoldable pub bare_ref : String → List ℕ
bare_ref ref = trim_prefix (codes ref) (codes "oci://")

tag_items : List String → Items
tag_items [] = no_items
tag_items (t ∷ ts) = item (text t) (tag_items ts)

-- The map that RegistryResolve marshals, with its keys in order.
abbrev descriptor_json : Descriptor → Json
descriptor_json d = object (
    field "digest" (text d.digest)
      (field "media_type" (text d.media_type) (field "size" (number d.size (pos 0)) no_fields)))

module _ (sdk : Sdk) where
  open sdk use {types, Client}

  -- RegistryLogin
  unfoldable pub registry_login :
      Option (Object types)
      → String
      → String
      → String
      → LoginOptions
      → Go (Process types) (Unit {0})
  registry_login client_obj host username password opts = do
    c ← lift (as_registry_client sdk client_obj)
    with_error_code code_registry (outer (sdk.login c host (login_options username password opts)))

  -- RegistryLogout
  unfoldable pub registry_logout : Option (Object types) → String → Go (Process types) (Unit {0})
  registry_logout client_obj host = do
    c ← lift (as_registry_client sdk client_obj)
    with_error_code code_registry (outer (sdk.logout c host))

  -- RegistryTags
  unfoldable pub registry_tags : Option (Object types) → String → Go (Process types) Json
  unfolding tag_items
  registry_tags client_obj ref = do
    c ← lift (as_registry_client sdk client_obj)
    tags ← with_error_code code_registry (outer (sdk.tags c (bare_ref ref)))
    pure (array (tag_items tags))

  -- RegistryResolve
  unfoldable pub registry_resolve : Option (Object types) → String → Go (Process types) Json
  registry_resolve client_obj ref = do
    c ← lift (as_registry_client sdk client_obj)
    desc ← with_error_code code_registry (outer (sdk.resolve c (bare_ref ref)))
    pure (descriptor_json desc)

  push_action : Option Client → Settings → PushOptions → PushAction types
  push_action client settings opts = record {
    registry_client = client;
    plain_http = opts.plain_http;
    insecure_skip_tls_verify = opts.insecure_skip_tls_verify;
    cert_file = opts.cert_file;
    key_file = opts.key_file;
    ca_file = opts.ca_file;
    settings = settings;
  }

  -- PushChart
  unfoldable pub push_chart :
      Option (Object types) → String → String → PushOptions → Go (Process types) Json
  unfolding push_action
  push_chart client_obj chart_path remote opts = do
    client ← resolve_client sdk client_obj true opts.plain_http
    settings ← gets (λ p. new_settings sdk p.outside)
    out ←
        with_error_code code_registry
          (outer (sdk.push_run (push_action client settings opts) chart_path remote))
    pure (object (field "output" (text out) no_fields))
