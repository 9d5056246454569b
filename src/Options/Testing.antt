-- ===== src/Options/Testing.antt =====
-- pkg/wrapper/testing_action.go: the JSON options contract.
use helm_c_sdk.Base.{Bool, List, String, [], false, ◌∷◌}
use helm_c_sdk.Base.Int.{pos, ℤ}
use helm_c_sdk.Json.{Document}
use helm_c_sdk.Result.{Result}
use helm_c_sdk.Json.Decode.{Table, bool_slot, decode_options, int_slot, strings_slot}

pub record TestOptions : Type 0 where
  pub timeout_seconds : ℤ
  pub logs : Bool
  pub include_names : List String
  pub exclude_names : List String

abbrev pub no_test_options : TestOptions
no_test_options = record {
  timeout_seconds = pos 0;
  logs = false;
  include_names = [];
  exclude_names = [];
}

abbrev pub test_options_fields : Table TestOptions
test_options_fields =
    int_slot "timeout_seconds" (λ v o. record o { timeout_seconds = v })
    ∷ bool_slot "logs" (λ v o. record o { logs = v })
    ∷ strings_slot "include_names" (λ v o. record o { include_names = v })
    ∷ strings_slot "exclude_names" (λ v o. record o { exclude_names = v })
    ∷ []

unfoldable pub parse_test_options : Document → Result TestOptions
parse_test_options = decode_options test_options_fields no_test_options "test"
