-- ===== src/Options/Listing.antt =====
-- pkg/wrapper/release_actions.go: the JSON options contract.
use helm_c_sdk.Base.{Bool, String, [], false, ◌∷◌}
use helm_c_sdk.Base.Int.{pos, ℤ}
use helm_c_sdk.Json.{Document}
use helm_c_sdk.Result.{Result}
use helm_c_sdk.Json.Decode.{Table, bool_slot, decode_options, int_slot, string_slot}

pub record ListOptions : Type 0 where
  pub all : Bool
  pub all_namespaces : Bool
  pub limit : ℤ
  pub offset : ℤ
  pub filter : String
  pub selector : String
  pub by_date : Bool
  pub sort_reverse : Bool
  pub deployed : Bool
  pub failed : Bool
  pub pending : Bool
  pub superseded : Bool
  pub uninstalled : Bool
  pub uninstalling : Bool

abbrev pub no_list_options : ListOptions
no_list_options = record {
  all = false;
  all_namespaces = false;
  limit = pos 0;
  offset = pos 0;
  filter = "";
  selector = "";
  by_date = false;
  sort_reverse = false;
  deployed = false;
  failed = false;
  pending = false;
  superseded = false;
  uninstalled = false;
  uninstalling = false;
}

abbrev pub list_options_fields : Table ListOptions
list_options_fields =
    bool_slot "all" (λ v o. record o { all = v })
    ∷ bool_slot "all_namespaces" (λ v o. record o { all_namespaces = v })
    ∷ int_slot "limit" (λ v o. record o { limit = v })
    ∷ int_slot "offset" (λ v o. record o { offset = v })
    ∷ string_slot "filter" (λ v o. record o { filter = v })
    ∷ string_slot "selector" (λ v o. record o { selector = v })
    ∷ bool_slot "by_date" (λ v o. record o { by_date = v })
    ∷ bool_slot "sort_reverse" (λ v o. record o { sort_reverse = v })
    ∷ bool_slot "deployed" (λ v o. record o { deployed = v })
    ∷ bool_slot "failed" (λ v o. record o { failed = v })
    ∷ bool_slot "pending" (λ v o. record o { pending = v })
    ∷ bool_slot "superseded" (λ v o. record o { superseded = v })
    ∷ bool_slot "uninstalled" (λ v o. record o { uninstalled = v })
    ∷ bool_slot "uninstalling" (λ v o. record o { uninstalling = v })
    ∷ []

unfoldable pub parse_list_options : Document → Result ListOptions
parse_list_options = decode_options list_options_fields no_list_options "list"
