-- ===== src/Options/ChartRef.antt =====
-- pkg/wrapper/actions.go: the JSON options contract.
use helm_c_sdk.Base.{Bool, String, [], false, ◌∷◌}
use helm_c_sdk.Json.Decode.{Table, bool_slot, string_slot}

pub record ChartRefOptions : Type 0 where
  pub chart_repo_url : String
  pub chart_version : String
  pub plain_http : Bool
  pub username : String
  pub password : String
  pub ca_file : String
  pub cert_file : String
  pub key_file : String
  pub insecure_skip_tls_verify : Bool
  pub verify : Bool
  pub keyring : String
  pub pass_credentials_all : Bool
  pub devel : Bool
  pub dependency_update : Bool

abbrev pub no_chart_ref_options : ChartRefOptions
no_chart_ref_options = record {
  chart_repo_url = "";
  chart_version = "";
  plain_http = false;
  username = "";
  password = "";
  ca_file = "";
  cert_file = "";
  key_file = "";
  insecure_skip_tls_verify = false;
  verify = false;
  keyring = "";
  pass_credentials_all = false;
  devel = false;
  dependency_update = false;
}

abbrev pub chart_ref_options_fields : Table ChartRefOptions
chart_ref_options_fields =
    string_slot "chart_repo_url" (λ v o. record o { chart_repo_url = v })
    ∷ string_slot "chart_version" (λ v o. record o { chart_version = v })
    ∷ bool_slot "plain_http" (λ v o. record o { plain_http = v })
    ∷ string_slot "username" (λ v o. record o { username = v })
    ∷ string_slot "password" (λ v o. record o { password = v })
    ∷ string_slot "ca_file" (λ v o. record o { ca_file = v })
    ∷ string_slot "cert_file" (λ v o. record o { cert_file = v })
    ∷ string_slot "key_file" (λ v o. record o { key_file = v })
    ∷ bool_slot "insecure_skip_tls_verify" (λ v o. record o { insecure_skip_tls_verify = v })
    ∷ bool_slot "verify" (λ v o. record o { verify = v })
    ∷ string_slot "keyring" (λ v o. record o { keyring = v })
    ∷ bool_slot "pass_credentials_all" (λ v o. record o { pass_credentials_all = v })
    ∷ bool_slot "devel" (λ v o. record o { devel = v })
    ∷ bool_slot "dependency_update" (λ v o. record o { dependency_update = v })
    ∷ []
