-- ===== src/Wrapper/Strategies.antt =====
-- pkg/wrapper: the option strings that are checked before they reach the SDK (parseDryRun,
-- runTargets.apply, defaultWaitStrategy and parsePostRenderStrategy of actions.go,
-- validateServerSideApply of upgrade.go, showFormat of chart.go, verificationStrategy of
-- distribution.go, interactsWithServer of install.go).
pub mod Laws
pub mod Durations
use Prim.Native.String.{◌++◌}
use helm_c_sdk.Base.{
  ℕ, zero, ◌+◌, ◌-◌, ◌*◌, ◌%◌, ◌^◌, ◌≡◌, Bool, true, false, ◌||◌, Option, none, some, String,
  str_eq, ltb, if◌then◌else◌,
}
use helm_c_sdk.Base.Int.{ℤ, pos, negsuc}
use helm_c_sdk.Base.Text.{quote}
use helm_c_sdk.Errors.{new_error, code_invalid_arg}
use helm_c_sdk.Result.{Result, ok, err, ◌>>=◌}
use helm_c_sdk.Sdk.Actions.{
  VerificationStrategy, verify_never, verify_always, verify_if_possible, verify_later,
}

-- action.DryRunStrategy
abbrev pub dry_run_none : String
dry_run_none = "none"

abbrev pub dry_run_client : String
dry_run_client = "client"

abbrev pub dry_run_server : String
dry_run_server = "server"

-- kube.HookOnlyStrategy
abbrev pub hook_only_strategy : String
hook_only_strategy = "hookOnly"

-- strconv.ParseBool
unfoldable pub parse_bool : String → Option Bool
parse_bool s =
    if str_eq s "1"
      || (str_eq s "t"
          || (str_eq s "T" || (str_eq s "TRUE" || (str_eq s "true" || str_eq s "True"))))
    then some true
    else if str_eq s "0"
        || (str_eq s "f"
            || (str_eq s "F" || (str_eq s "FALSE" || (str_eq s "false" || str_eq s "False"))))
    then some false
    else none

-- parseDryRun
unfoldable pub parse_dry_run : String → Result String
parse_dry_run s =
    if str_eq s "" || str_eq s dry_run_none
    then ok dry_run_none
    else if str_eq s dry_run_client
    then ok dry_run_client
    else if str_eq s dry_run_server
    then ok dry_run_server
    else elim (parse_bool s) [
      | some true ↦ ok dry_run_client
      | some false ↦ ok dry_run_none
      | none ↦ err (
          new_error code_invalid_arg (
            "invalid dry_run value "
            ++ (quote s ++ ": must be \"none\", \"client\" or \"server\"")))
    ]

-- interactsWithServer
unfoldable pub interacts_with_server : String → Bool
interacts_with_server s = str_eq s dry_run_none || str_eq s dry_run_server

-- defaultWaitStrategy
unfoldable pub default_wait_strategy : String → String
default_wait_strategy wait = if str_eq wait "" then hook_only_strategy else wait

-- The int64 that a product of two's complement numbers leaves.
unfoldable pub wrap_int64 : ℕ → ℤ
wrap_int64 n = let m = n % 2 ^ 64 in if ltb m (2 ^ 63) then pos m else negsuc (2 ^ 64 - m - 1)

-- time.Duration(timeoutSeconds) * time.Second, where timeoutSeconds > 0
unfoldable pub seconds_duration : ℕ → ℤ
unfolding wrap_int64
seconds_duration n = wrap_int64 (n * 1000000000)

-- What runTargets.apply writes: the timeout (`current` where the option is not positive), the wait
-- strategy, and the dry run strategy where the action has one.
unfoldable pub apply_timeout : ℤ → ℤ → ℤ
unfolding seconds_duration
apply_timeout (pos zero) current = current
apply_timeout (pos n) current = seconds_duration n
apply_timeout (negsuc n) current = current

-- validateServerSideApply; `some` is the error
unfoldable pub validate_server_side_apply : String → Result (Unit {0})
validate_server_side_apply s =
    if str_eq s "" || (str_eq s "true" || (str_eq s "false" || str_eq s "auto"))
    then ok tt
    else err (
        new_error code_invalid_arg (
          "invalid server_side_apply " ++ (quote s ++ ": must be \"true\", \"false\" or \"auto\"")))

-- parsePostRenderStrategy
unfoldable pub parse_post_render_strategy : String → Result String
parse_post_render_strategy s =
    if str_eq s ""
    then ok "combined"
    else if str_eq s "combined" || (str_eq s "separate" || str_eq s "nohooks")
    then ok s
    else err (
        new_error code_invalid_arg (
          "invalid post_render_strategy "
          ++ (quote s ++ ": must be \"combined\", \"separate\" or \"nohooks\"")))

-- The switch of UninstallRelease.
unfoldable pub validate_deletion_propagation : String → Result (Unit {0})
validate_deletion_propagation s =
    if str_eq s "" || (str_eq s "background" || (str_eq s "foreground" || str_eq s "orphan"))
    then ok tt
    else err (
        new_error code_invalid_arg (
          "invalid deletion_propagation "
          ++ (quote s ++ ": must be \"background\", \"foreground\" or \"orphan\"")))

-- verificationStrategy
unfoldable pub verification_strategy : String → Result VerificationStrategy
verification_strategy s =
    if str_eq s "" || (str_eq s "never" || str_eq s "false")
    then ok verify_never
    else if str_eq s "always" || str_eq s "true"
    then ok verify_always
    else if str_eq s "if_possible"
    then ok verify_if_possible
    else if str_eq s "later"
    then ok verify_later
    else err (
        new_error code_invalid_arg
          "invalid verify value: must be \"never\", \"always\", \"if_possible\" or \"later\"")
