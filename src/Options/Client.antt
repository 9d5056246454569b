-- ===== src/Options/Client.antt =====
-- pkg/wrapper/registry.go: the JSON options contracts.
use helm_c_sdk.Base.{Bool, String, [], false, ◌∷◌}
use helm_c_sdk.Json.{Document}
use helm_c_sdk.Result.{Result}
use helm_c_sdk.Json.Decode.{Table, bool_slot, decode_options, string_slot}

-- RegistryClientOptions
pub record RegistryClientOptions : Type 0 where
  pub debug : Bool
  pub plain_http : Bool
  pub credentials_file : String
  pub username : String
  pub password : String

abbrev pub no_registry_client_options : RegistryClientOptions
no_registry_client_options = record {
  debug = false;
  plain_http = false;
  credentials_file = "";
  username = "";
  password = "";
}

abbrev pub registry_client_options_fields : Table RegistryClientOptions
registry_client_options_fields =
    bool_slot "debug" (λ v o. record o { debug = v })
    ∷ bool_slot "plain_http" (λ v o. record o { plain_http = v })
    ∷ string_slot "credentials_file" (λ v o. record o { credentials_file = v })
    ∷ string_slot "username" (λ v o. record o { username = v })
    ∷ string_slot "password" (λ v o. record o { password = v })
    ∷ []

unfoldable pub parse_registry_client_options : Document → Result RegistryClientOptions
parse_registry_client_options =
    decode_options registry_client_options_fields no_registry_client_options "registry client"

-- LoginOptions
pub record LoginOptions : Type 0 where
  pub insecure : Bool
  pub plain_http : Bool
  pub cert_file : String
  pub key_file : String
  pub ca_file : String

abbrev pub no_login_options : LoginOptions
no_login_options = record {
  insecure = false;
  plain_http = false;
  cert_file = "";
  key_file = "";
  ca_file = "";
}

abbrev pub login_options_fields : Table LoginOptions
login_options_fields =
    bool_slot "insecure" (λ v o. record o { insecure = v })
    ∷ bool_slot "plain_http" (λ v o. record o { plain_http = v })
    ∷ string_slot "cert_file" (λ v o. record o { cert_file = v })
    ∷ string_slot "key_file" (λ v o. record o { key_file = v })
    ∷ string_slot "ca_file" (λ v o. record o { ca_file = v })
    ∷ []

unfoldable pub parse_login_options : Document → Result LoginOptions
parse_login_options = decode_options login_options_fields no_login_options "login"
