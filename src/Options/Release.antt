-- ===== src/Options/Release.antt =====
-- pkg/wrapper/release_actions.go: the JSON options contracts.
use helm_c_sdk.Base.{Bool, String, [], false, ◌∷◌}
use helm_c_sdk.Base.Int.{pos, ℤ}
use helm_c_sdk.Json.{Document}
use helm_c_sdk.Result.{Result}
use helm_c_sdk.Json.Decode.{Table, bool_slot, decode_options, int_slot, string_slot}

-- UninstallOptions
pub record UninstallOptions : Type 0 where
  pub keep_history : Bool
  pub timeout_seconds : ℤ
  pub dry_run : Bool
  pub ignore_not_found : Bool
  pub wait : String
  pub description : String
  pub disable_hooks : Bool
  pub deletion_propagation : String

abbrev pub no_uninstall_options : UninstallOptions
no_uninstall_options = record {
  keep_history = false;
  timeout_seconds = pos 0;
  dry_run = false;
  ignore_not_found = false;
  wait = "";
  description = "";
  disable_hooks = false;
  deletion_propagation = "";
}

abbrev pub uninstall_options_fields : Table UninstallOptions
uninstall_options_fields =
    bool_slot "keep_history" (λ v o. record o { keep_history = v })
    ∷ int_slot "timeout_seconds" (λ v o. record o { timeout_seconds = v })
    ∷ bool_slot "dry_run" (λ v o. record o { dry_run = v })
    ∷ bool_slot "ignore_not_found" (λ v o. record o { ignore_not_found = v })
    ∷ string_slot "wait" (λ v o. record o { wait = v })
    ∷ string_slot "description" (λ v o. record o { description = v })
    ∷ bool_slot "disable_hooks" (λ v o. record o { disable_hooks = v })
    ∷ string_slot "deletion_propagation" (λ v o. record o { deletion_propagation = v })
    ∷ []

unfoldable pub parse_uninstall_options : Document → Result UninstallOptions
parse_uninstall_options = decode_options uninstall_options_fields no_uninstall_options "uninstall"

-- RollbackOptions
pub record RollbackOptions : Type 0 where
  pub version : ℤ
  pub timeout_seconds : ℤ
  pub wait : String
  pub dry_run : String
  pub wait_for_jobs : Bool
  pub disable_hooks : Bool
  pub force_replace : Bool
  pub force_conflicts : Bool
  pub server_side_apply : String
  pub cleanup_on_fail : Bool
  pub max_history : ℤ

abbrev pub no_rollback_options : RollbackOptions
no_rollback_options = record {
  version = pos 0;
  timeout_seconds = pos 0;
  wait = "";
  dry_run = "";
  wait_for_jobs = false;
  disable_hooks = false;
  force_replace = false;
  force_conflicts = false;
  server_side_apply = "";
  cleanup_on_fail = false;
  max_history = pos 0;
}

abbrev pub rollback_options_fields : Table RollbackOptions
rollback_options_fields =
    int_slot "version" (λ v o. record o { version = v })
    ∷ int_slot "timeout_seconds" (λ v o. record o { timeout_seconds = v })
    ∷ string_slot "wait" (λ v o. record o { wait = v })
    ∷ string_slot "dry_run" (λ v o. record o { dry_run = v })
    ∷ bool_slot "wait_for_jobs" (λ v o. record o { wait_for_jobs = v })
    ∷ bool_slot "disable_hooks" (λ v o. record o { disable_hooks = v })
    ∷ bool_slot "force_replace" (λ v o. record o { force_replace = v })
    ∷ bool_slot "force_conflicts" (λ v o. record o { force_conflicts = v })
    ∷ string_slot "server_side_apply" (λ v o. record o { server_side_apply = v })
    ∷ bool_slot "cleanup_on_fail" (λ v o. record o { cleanup_on_fail = v })
    ∷ int_slot "max_history" (λ v o. record o { max_history = v })
    ∷ []

unfoldable pub parse_rollback_options : Document → Result RollbackOptions
parse_rollback_options = decode_options rollback_options_fields no_rollback_options "rollback"

-- StatusOptions
pub record StatusOptions : Type 0 where
  pub revision : ℤ

abbrev pub no_status_options : StatusOptions
no_status_options = record { revision = pos 0 }

abbrev pub status_options_fields : Table StatusOptions
status_options_fields = int_slot "revision" (λ v o. record o { revision = v }) ∷ []

unfoldable pub parse_status_options : Document → Result StatusOptions
parse_status_options = decode_options status_options_fields no_status_options "status"

-- HistoryOptions
pub record HistoryOptions : Type 0 where
  pub max : ℤ

abbrev pub no_history_options : HistoryOptions
no_history_options = record { max = pos 0 }

abbrev pub history_options_fields : Table HistoryOptions
history_options_fields = int_slot "max" (λ v o. record o { max = v }) ∷ []

unfoldable pub parse_history_options : Document → Result HistoryOptions
parse_history_options = decode_options history_options_fields no_history_options "history"

-- GetOptions
pub record GetOptions : Type 0 where
  pub revision : ℤ

abbrev pub no_get_options : GetOptions
no_get_options = record { revision = pos 0 }

abbrev pub get_options_fields : Table GetOptions
get_options_fields = int_slot "revision" (λ v o. record o { revision = v }) ∷ []

unfoldable pub parse_get_options : Document → Result GetOptions
parse_get_options = decode_options get_options_fields no_get_options "get"

-- GetMetadataOptions
pub record GetMetadataOptions : Type 0 where
  pub revision : ℤ

abbrev pub no_get_metadata_options : GetMetadataOptions
no_get_metadata_options = record { revision = pos 0 }

abbrev pub get_metadata_options_fields : Table GetMetadataOptions
get_metadata_options_fields = int_slot "revision" (λ v o. record o { revision = v }) ∷ []

unfoldable pub parse_get_metadata_options : Document → Result GetMetadataOptions
parse_get_metadata_options =
    decode_options get_metadata_options_fields no_get_metadata_options "get metadata"

-- GetValuesOptions
pub record GetValuesOptions : Type 0 where
  pub all : Bool
  pub revision : ℤ

abbrev pub no_get_values_options : GetValuesOptions
no_get_values_options = record { all = false; revision = pos 0 }

abbrev pub get_values_options_fields : Table GetValuesOptions
get_values_options_fields =
    bool_slot "all" (λ v o. record o { all = v })
    ∷ int_slot "revision" (λ v o. record o { revision = v })
    ∷ []

unfoldable pub parse_get_values_options : Document → Result GetValuesOptions
parse_get_values_options =
    decode_options get_values_options_fields no_get_values_options "get values"
