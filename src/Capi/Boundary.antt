-- ===== src/Capi/Boundary.antt =====
-- capi/convert.go and the shared bodies of capi/extra.go: out-parameters, error texts, and panics
-- that do not cross into C. A `char *` is NULL or a text; that it was allocated and who frees it is
-- not modelled, nor is a caller that passes one address for both out-parameters.
pub mod Contract
pub mod Frame
use Prim.Native.String.{◌++◌}
use helm_c_sdk.Base.{ℕ, Option, none, some, String, List, [], ◌∷◌}
use helm_c_sdk.Base.Int.{ℤ}
use helm_c_sdk.Errors.{
  Err, code_ok, code_invalid_arg, code_panic, to_int32, from_error, new_error, error_text,
}
use helm_c_sdk.Result.{Result, ok, err}
use helm_c_sdk.Go.{Outcome, returns, fails, panics, Go}
use helm_c_sdk.Json.{Document, empty}

-- A pointer into the caller's memory, with what it points at.
pub data Slot (A : Type 0) : Type 0 where
  null : Slot A
  holds : A → Slot A

-- A `char *` argument.
abbrev pub CString : Type 0
CString = Option String

-- `char **error_out`
abbrev pub ErrorOut : Type 0
ErrorOut = Slot CString

-- What the caller sees when the call is over: the result, and its memory.
pub record Reply (V : Type 0) : Type 0 where
  pub code : ℤ
  pub out : V
  pub error_out : ErrorOut

-- optionalGoString and C.GoString, which both give "" for NULL
abbrev pub go_string : CString → String
go_string none = ""
go_string (some s) = s

-- The same for a text that is read as JSON.
abbrev pub go_json : Option Document → Document
go_json none = empty
go_json (some d) = d

-- clearErrorOut
unfoldable pub clear_error_out : ErrorOut → ErrorOut
clear_error_out null = null
clear_error_out (holds s) = holds none

-- cErrorOut, of an error that is not nil
unfoldable pub c_error_out : ErrorOut → Err → ErrorOut
c_error_out null e = null
c_error_out (holds s) e = holds (some (error_text e))

-- requireArgs
unfoldable pub require_args : String → List CString → Result (Unit {0})
require_args names [] = ok tt
require_args names (none ∷ ptrs) = err (new_error code_invalid_arg (names ++ " must not be NULL"))
require_args names (some s ∷ ptrs) = require_args names ptrs

abbrev panic_text : ErrorOut → String → ErrorOut
panic_text null m = null
panic_text (holds s) m = holds (some ("helm-c: recovered panic: " ++ m))

module _ {V : Type 0} where
  -- failure, as the shims return it
  unfoldable pub failure : V → ErrorOut → Err → Reply V
  failure out error_out e = record {
    code = to_int32 (from_error (some e));
    out = out;
    error_out = c_error_out error_out e;
  }

  -- recoverToCode
  unfoldable pub recovered : V → ErrorOut → String → Reply V
  recovered out error_out m = record {
    code = to_int32 code_panic;
    out = out;
    error_out = panic_text error_out m;
  }

  unfoldable pub success : V → ErrorOut → Reply V
  success out error_out = record { code = to_int32 code_ok; out = out; error_out = error_out }

module _ {A V : Type 0} where
  -- The three ways out of a shim; a value is written by `write`, anything else leaves `out` alone.
  unfoldable pub reply : (A → V) → V → ErrorOut → Outcome A → Reply V
  unfolding failure recovered success
  reply write out error_out (returns a) = success (write a) error_out
  reply write out error_out (fails e) = failure out error_out e
  reply write out error_out (panics m) = recovered out error_out m

module _ {S A : Type 0} where
  -- stringResult
  unfoldable pub string_result :
      Slot (Option A) → ErrorOut → Go S A → S → Reply (Slot (Option A)) × S
  unfolding reply
  string_result null error_out run s = (
    failure null (clear_error_out error_out) (new_error code_invalid_arg "out must not be NULL"),
    s,
  )
  string_result (holds x) error_out run s =
      let (r, s') = run s in
      (reply (λ a. holds (some a)) (holds x) (clear_error_out error_out) r, s')

  -- The NULL checks and the tail of chartActionShim and releaseAction.
  unfoldable pub named_result :
      CString → Slot (Option A) → ErrorOut → (String → Go S A) → S → Reply (Slot (Option A)) × S
  unfolding string_result
  named_result (some name) (holds x) error_out run s =
      string_result (holds x) error_out (run name) s
  named_result (some name) null error_out run s = (
    failure null (clear_error_out error_out)
        (new_error code_invalid_arg "name and out must not be NULL"),
    s,
  )
  named_result none out error_out run s = (
    failure out (clear_error_out error_out)
        (new_error code_invalid_arg "name and out must not be NULL"),
    s,
  )

module _ {S : Type 0} where
  -- handleResult
  unfoldable pub handle_result : Slot ℕ → ErrorOut → Go S ℕ → S → Reply (Slot ℕ) × S
  unfolding reply
  handle_result null error_out run s = (
    failure null (clear_error_out error_out) (new_error code_invalid_arg "out must not be NULL"),
    s,
  )
  handle_result (holds x) error_out run s =
      let (r, s') = run s in (reply (λ h. holds h) (holds x) (clear_error_out error_out) r, s')

  -- statusResult
  unfoldable pub status_result : ErrorOut → Go S (Unit {0}) → S → Reply (Unit {0}) × S
  unfolding reply
  status_result error_out run s =
      let (r, s') = run s in (reply (λ a. tt) tt (clear_error_out error_out) r, s')
