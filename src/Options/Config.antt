-- ===== src/Options/Config.antt =====
-- pkg/wrapper/config.go: the JSON options contract.
use helm_c_sdk.Base.{Bool, List, String, [], false, ◌∷◌}
use helm_c_sdk.Base.Int.{pos, ℤ}
use helm_c_sdk.Json.{Document}
use helm_c_sdk.Result.{Result}
use helm_c_sdk.Json.Decode.{
  Table, bool_slot, decode_options, float_slot, int_slot, string_slot, strings_slot,
}

pub record ConfigOptions : Type 0 where
  pub kubeconfig_path : String
  pub kubeconfig_content : String
  pub kube_context : String
  pub kube_token : String
  pub kube_api_server : String
  pub kube_ca_file : String
  pub kube_tls_server_name : String
  pub kube_insecure_skip_tls_verify : Bool
  pub kube_as_user : String
  pub kube_as_groups : List String
  pub burst_limit : ℤ
  -- mantissa and exponent of the literal
  pub qps : ℤ × ℤ
  pub namespace : String
  pub storage_driver : String

abbrev pub no_config_options : ConfigOptions
no_config_options = record {
  kubeconfig_path = "";
  kubeconfig_content = "";
  kube_context = "";
  kube_token = "";
  kube_api_server = "";
  kube_ca_file = "";
  kube_tls_server_name = "";
  kube_insecure_skip_tls_verify = false;
  kube_as_user = "";
  kube_as_groups = [];
  burst_limit = pos 0;
  qps = (pos 0, pos 0);
  namespace = "";
  storage_driver = "";
}

abbrev pub config_options_fields : Table ConfigOptions
config_options_fields =
    string_slot "kubeconfig_path" (λ v o. record o { kubeconfig_path = v })
    ∷ string_slot "kubeconfig_content" (λ v o. record o { kubeconfig_content = v })
    ∷ string_slot "kube_context" (λ v o. record o { kube_context = v })
    ∷ string_slot "kube_token" (λ v o. record o { kube_token = v })
    ∷ string_slot "kube_apiserver" (λ v o. record o { kube_api_server = v })
    ∷ string_slot "kube_ca_file" (λ v o. record o { kube_ca_file = v })
    ∷ string_slot "kube_tls_server_name" (λ v o. record o { kube_tls_server_name = v })
    ∷ bool_slot "kube_insecure_skip_tls_verify"
        (λ v o. record o { kube_insecure_skip_tls_verify = v })
    ∷ string_slot "kube_as_user" (λ v o. record o { kube_as_user = v })
    ∷ strings_slot "kube_as_groups" (λ v o. record o { kube_as_groups = v })
    ∷ int_slot "burst_limit" (λ v o. record o { burst_limit = v })
    ∷ float_slot "qps" (λ m e o. record o { qps = (m, e) })
    ∷ string_slot "namespace" (λ v o. record o { namespace = v })
    ∷ string_slot "storage_driver" (λ v o. record o { storage_driver = v })
    ∷ []

unfoldable pub parse_config_options : Document → Result ConfigOptions
parse_config_options = decode_options config_options_fields no_config_options "config"
