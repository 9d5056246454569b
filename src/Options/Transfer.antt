-- ===== src/Options/Transfer.antt =====
-- pkg/wrapper/distribution.go: the JSON options contracts.
use helm_c_sdk.Base.{Bool, String, [], false, ◌∷◌}
use helm_c_sdk.Json.{Document}
use helm_c_sdk.Result.{Result}
use helm_c_sdk.Json.Decode.{Table, bool_slot, decode_options, string_slot}

-- PullOptions
pub record PullOptions : Type 0 where
  pub dest_dir : String
  pub version : String
  pub repo_url : String
  pub untar : Bool
  pub untar_dir : String
  pub plain_http : Bool
  pub insecure_skip_tls_verify : Bool
  pub username : String
  pub password : String
  pub ca_file : String
  pub cert_file : String
  pub key_file : String
  pub pass_credentials_all : Bool
  pub verify : Bool
  pub verify_later : Bool
  pub keyring : String
  pub devel : Bool

abbrev pub no_pull_options : PullOptions
no_pull_options = record {
  dest_dir = "";
  version = "";
  repo_url = "";
  untar = false;
  untar_dir = "";
  plain_http = false;
  insecure_skip_tls_verify = false;
  username = "";
  password = "";
  ca_file = "";
  cert_file = "";
  key_file = "";
  pass_credentials_all = false;
  verify = false;
  verify_later = false;
  keyring = "";
  devel = false;
}

abbrev pub pull_options_fields : Table PullOptions
pull_options_fields =
    string_slot "dest_dir" (λ v o. record o { dest_dir = v })
    ∷ string_slot "version" (λ v o. record o { version = v })
    ∷ string_slot "repo_url" (λ v o. record o { repo_url = v })
    ∷ bool_slot "untar" (λ v o. record o { untar = v })
    ∷ string_slot "untar_dir" (λ v o. record o { untar_dir = v })
    ∷ bool_slot "plain_http" (λ v o. record o { plain_http = v })
    ∷ bool_slot "insecure_skip_tls_verify" (λ v o. record o { insecure_skip_tls_verify = v })
    ∷ string_slot "username" (λ v o. record o { username = v })
    ∷ string_slot "password" (λ v o. record o { password = v })
    ∷ string_slot "ca_file" (λ v o. record o { ca_file = v })
    ∷ string_slot "cert_file" (λ v o. record o { cert_file = v })
    ∷ string_slot "key_file" (λ v o. record o { key_file = v })
    ∷ bool_slot "pass_credentials_all" (λ v o. record o { pass_credentials_all = v })
    ∷ bool_slot "verify" (λ v o. record o { verify = v })
    ∷ bool_slot "verify_later" (λ v o. record o { verify_later = v })
    ∷ string_slot "keyring" (λ v o. record o { keyring = v })
    ∷ bool_slot "devel" (λ v o. record o { devel = v })
    ∷ []

unfoldable pub parse_pull_options : Document → Result PullOptions
parse_pull_options = decode_options pull_options_fields no_pull_options "pull"

-- PushOptions
pub record PushOptions : Type 0 where
  pub plain_http : Bool
  pub insecure_skip_tls_verify : Bool
  pub cert_file : String
  pub key_file : String
  pub ca_file : String

abbrev pub no_push_options : PushOptions
no_push_options = record {
  plain_http = false;
  insecure_skip_tls_verify = false;
  cert_file = "";
  key_file = "";
  ca_file = "";
}

abbrev pub push_options_fields : Table PushOptions
push_options_fields =
    bool_slot "plain_http" (λ v o. record o { plain_http = v })
    ∷ bool_slot "insecure_skip_tls_verify" (λ v o. record o { insecure_skip_tls_verify = v })
    ∷ string_slot "cert_file" (λ v o. record o { cert_file = v })
    ∷ string_slot "key_file" (λ v o. record o { key_file = v })
    ∷ string_slot "ca_file" (λ v o. record o { ca_file = v })
    ∷ []

unfoldable pub parse_push_options : Document → Result PushOptions
parse_push_options = decode_options push_options_fields no_push_options "push"
