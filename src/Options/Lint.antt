-- ===== src/Options/Lint.antt =====
-- pkg/wrapper/lint.go: the JSON options contract.
use helm_c_sdk.Base.{Bool, String, [], false, ◌∷◌}
use helm_c_sdk.Json.{Document}
use helm_c_sdk.Result.{Result}
use helm_c_sdk.Json.Decode.{Table, bool_slot, decode_options, string_slot}

pub record LintOptions : Type 0 where
  pub strict : Bool
  pub namespace : String
  pub with_subcharts : Bool
  pub quiet : Bool
  pub skip_schema_validation : Bool
  pub kube_version : String

abbrev pub no_lint_options : LintOptions
no_lint_options = record {
  strict = false;
  namespace = "";
  with_subcharts = false;
  quiet = false;
  skip_schema_validation = false;
  kube_version = "";
}

abbrev pub lint_options_fields : Table LintOptions
lint_options_fields =
    bool_slot "strict" (λ v o. record o { strict = v })
    ∷ string_slot "namespace" (λ v o. record o { namespace = v })
    ∷ bool_slot "with_subcharts" (λ v o. record o { with_subcharts = v })
    ∷ bool_slot "quiet" (λ v o. record o { quiet = v })
    ∷ bool_slot "skip_schema_validation" (λ v o. record o { skip_schema_validation = v })
    ∷ string_slot "kube_version" (λ v o. record o { kube_version = v })
    ∷ []

unfoldable pub parse_lint_options : Document → Result LintOptions
parse_lint_options = decode_options lint_options_fields no_lint_options "lint"
