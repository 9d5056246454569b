-- ===== src/Options/Dependency.antt =====
-- pkg/wrapper/dependency.go: the JSON options contract.
use helm_c_sdk.Base.{Bool, String, [], false, ◌∷◌}
use helm_c_sdk.Json.{Document}
use helm_c_sdk.Result.{Result}
use helm_c_sdk.Json.Decode.{Table, bool_slot, decode_options, string_slot}

pub record DependencyOptions : Type 0 where
  pub skip_refresh : Bool
  pub keyring : String
  pub verify : Bool
  pub verify_mode : String
  pub plain_http : Bool
  pub debug : Bool
  pub username : String
  pub password : String
  pub cert_file : String
  pub key_file : String
  pub ca_file : String
  pub insecure : Bool

abbrev pub no_dependency_options : DependencyOptions
no_dependency_options = record {
  skip_refresh = false;
  keyring = "";
  verify = false;
  verify_mode = "";
  plain_http = false;
  debug = false;
  username = "";
  password = "";
  cert_file = "";
  key_file = "";
  ca_file = "";
  insecure = false;
}

abbrev pub dependency_options_fields : Table DependencyOptions
dependency_options_fields =
    bool_slot "skip_refresh" (λ v o. record o { skip_refresh = v })
    ∷ string_slot "keyring" (λ v o. record o { keyring = v })
    ∷ bool_slot "verify" (λ v o. record o { verify = v })
    ∷ string_slot "verify_mode" (λ v o. record o { verify_mode = v })
    ∷ bool_slot "plain_http" (λ v o. record o { plain_http = v })
    ∷ bool_slot "debug" (λ v o. record o { debug = v })
    ∷ string_slot "username" (λ v o. record o { username = v })
    ∷ string_slot "password" (λ v o. record o { password = v })
    ∷ string_slot "cert_file" (λ v o. record o { cert_file = v })
    ∷ string_slot "key_file" (λ v o. record o { key_file = v })
    ∷ string_slot "ca_file" (λ v o. record o { ca_file = v })
    ∷ bool_slot "insecure_skip_tls_verify" (λ v o. record o { insecure = v })
    ∷ []

unfoldable pub parse_dependency_options : Document → Result DependencyOptions
parse_dependency_options =
    decode_options dependency_options_fields no_dependency_options "dependency"
