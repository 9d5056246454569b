-- ===== src/Wrapper/Failures.antt =====
-- wrapActionError of pkg/wrapper/actions.go.
pub mod Laws
use helm_c_sdk.Base.{ℕ, Bool, ◌||◌, Option, none, some, String, List, if◌then◌else◌}
use helm_c_sdk.Base.Text.{codes, to_lower, contains}
use helm_c_sdk.Errors.{
  Code, code_cancelled, code_not_found, code_kube, Err, canceled, deadline_exceeded,
  release_not_found, is_err, error_text, with_code,
}

abbrev pub kube_unreachable_phrase : String
kube_unreachable_phrase = "kubernetes cluster unreachable"

-- The test of the third case.
unfoldable pub says_unreachable : Err → Bool
says_unreachable e = contains (to_lower (codes (error_text e))) (codes kube_unreachable_phrase)

-- wrapActionError
unfoldable pub wrap_action_error : Option Err → Code → Option Err
unfolding with_code
wrap_action_error none fallback = none
wrap_action_error (some e) fallback =
    if is_err canceled e || is_err deadline_exceeded e
    then with_code code_cancelled (some e)
    else if is_err release_not_found e
    then with_code code_not_found (some e)
    else if says_unreachable e
    then with_code code_kube (some e)
    else with_code fallback (some e)
