-- ===== src/Options/Repo.antt =====
-- pkg/wrapper/repo.go: the JSON options contracts.
use helm_c_sdk.Base.{Bool, String, [], false, ◌∷◌}
use helm_c_sdk.Json.{Document}
use helm_c_sdk.Result.{Result}
use helm_c_sdk.Json.Decode.{Table, bool_slot, decode_options, string_slot}

-- RepoIndexOptions
pub record RepoIndexOptions : Type 0 where
  pub username : String
  pub password : String
  pub insecure_skip_tls_verify : Bool
  pub cert_file : String
  pub key_file : String
  pub ca_file : String
  pub pass_credentials_all : Bool

abbrev pub no_repo_index_options : RepoIndexOptions
no_repo_index_options = record {
  username = "";
  password = "";
  insecure_skip_tls_verify = false;
  cert_file = "";
  key_file = "";
  ca_file = "";
  pass_credentials_all = false;
}

abbrev pub repo_index_options_fields : Table RepoIndexOptions
repo_index_options_fields =
    string_slot "username" (λ v o. record o { username = v })
    ∷ string_slot "password" (λ v o. record o { password = v })
    ∷ bool_slot "insecure_skip_tls_verify" (λ v o. record o { insecure_skip_tls_verify = v })
    ∷ string_slot "cert_file" (λ v o. record o { cert_file = v })
    ∷ string_slot "key_file" (λ v o. record o { key_file = v })
    ∷ string_slot "ca_file" (λ v o. record o { ca_file = v })
    ∷ bool_slot "pass_credentials_all" (λ v o. record o { pass_credentials_all = v })
    ∷ []

unfoldable pub parse_repo_index_options : Document → Result RepoIndexOptions
parse_repo_index_options =
    decode_options repo_index_options_fields no_repo_index_options "repo index"

-- RepoIndexGenerateOptions
pub record RepoIndexGenerateOptions : Type 0 where
  pub base_url : String
  pub merge : String
  pub json : Bool

abbrev pub no_repo_index_generate_options : RepoIndexGenerateOptions
no_repo_index_generate_options = record { base_url = ""; merge = ""; json = false }

abbrev pub repo_index_generate_options_fields : Table RepoIndexGenerateOptions
repo_index_generate_options_fields =
    string_slot "base_url" (λ v o. record o { base_url = v })
    ∷ string_slot "merge" (λ v o. record o { merge = v })
    ∷ bool_slot "json" (λ v o. record o { json = v })
    ∷ []

unfoldable pub parse_repo_index_generate_options : Document → Result RepoIndexGenerateOptions
parse_repo_index_generate_options =
    decode_options repo_index_generate_options_fields no_repo_index_generate_options
      "repo index generate"
