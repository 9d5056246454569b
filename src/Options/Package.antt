-- ===== src/Options/Package.antt =====
-- pkg/wrapper/package.go: the JSON options contracts.
use helm_c_sdk.Base.{Bool, String, [], false, ◌∷◌}
use helm_c_sdk.Json.{Document}
use helm_c_sdk.Result.{Result}
use helm_c_sdk.Json.Decode.{Table, bool_slot, decode_options, string_slot}

-- PackageOptions
pub record PackageOptions : Type 0 where
  pub destination : String
  pub version : String
  pub app_version : String
  pub sign : Bool
  pub key : String
  pub keyring : String
  pub passphrase_file : String
  pub dependency_update : Bool
  pub plain_http : Bool
  pub username : String
  pub password : String
  pub cert_file : String
  pub key_file : String
  pub ca_file : String
  pub insecure_skip_tls_verify : Bool

abbrev pub no_package_options : PackageOptions
no_package_options = record {
  destination = "";
  version = "";
  app_version = "";
  sign = false;
  key = "";
  keyring = "";
  passphrase_file = "";
  dependency_update = false;
  plain_http = false;
  username = "";
  password = "";
  cert_file = "";
  key_file = "";
  ca_file = "";
  insecure_skip_tls_verify = false;
}

abbrev pub package_options_fields : Table PackageOptions
package_options_fields =
    string_slot "destination" (λ v o. record o { destination = v })
    ∷ string_slot "version" (λ v o. record o { version = v })
    ∷ string_slot "app_version" (λ v o. record o { app_version = v })
    ∷ bool_slot "sign" (λ v o. record o { sign = v })
    ∷ string_slot "key" (λ v o. record o { key = v })
    ∷ string_slot "keyring" (λ v o. record o { keyring = v })
    ∷ string_slot "passphrase_file" (λ v o. record o { passphrase_file = v })
    ∷ bool_slot "dependency_update" (λ v o. record o { dependency_update = v })
    ∷ bool_slot "plain_http" (λ v o. record o { plain_http = v })
    ∷ string_slot "username" (λ v o. record o { username = v })
    ∷ string_slot "password" (λ v o. record o { password = v })
    ∷ string_slot "cert_file" (λ v o. record o { cert_file = v })
    ∷ string_slot "key_file" (λ v o. record o { key_file = v })
    ∷ string_slot "ca_file" (λ v o. record o { ca_file = v })
    ∷ bool_slot "insecure_skip_tls_verify" (λ v o. record o { insecure_skip_tls_verify = v })
    ∷ []

unfoldable pub parse_package_options : Document → Result PackageOptions
parse_package_options = decode_options package_options_fields no_package_options "package"

-- SignOptions
pub record SignOptions : Type 0 where
  pub key : String
  pub keyring : String
  pub passphrase_file : String

abbrev pub no_sign_options : SignOptions
no_sign_options = record { key = ""; keyring = ""; passphrase_file = "" }

abbrev pub sign_options_fields : Table SignOptions
sign_options_fields =
    string_slot "key" (λ v o. record o { key = v })
    ∷ string_slot "keyring" (λ v o. record o { keyring = v })
    ∷ string_slot "passphrase_file" (λ v o. record o { passphrase_file = v })
    ∷ []

unfoldable pub parse_sign_options : Document → Result SignOptions
parse_sign_options = decode_options sign_options_fields no_sign_options "sign"
