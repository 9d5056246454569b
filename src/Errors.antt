-- ===== src/Errors.antt =====
-- pkg/cerrors/cerrors.go: the stable codes of the C ABI, and Go errors as chains of wrappers.
pub mod Laws
use Prim.Native.String.{◌++◌}
use helm_c_sdk.Base.{ℕ, ◌≡◌, Bool, true, false, ◌||◌, Option, none, some, String, if◌then◌else◌}
use helm_c_sdk.Base.Int.{ℤ, pos, negsuc}

pub data Code : Type 0 where
  code_ok code_unknown code_invalid_arg code_invalid_handle code_wrong_handle_type : Code
  code_panic code_cancelled code_not_found code_io : Code
  code_chart_load code_chart_invalid code_values code_render : Code
  code_registry code_repo code_kube code_storage code_release : Code

-- The value of the `int32` constant.
unfoldable pub to_int32 : Code → ℤ
to_int32 code_ok = pos 0
to_int32 code_unknown = negsuc 0
to_int32 code_invalid_arg = negsuc 1
to_int32 code_invalid_handle = negsuc 2
to_int32 code_wrong_handle_type = negsuc 3
to_int32 code_panic = negsuc 4
to_int32 code_cancelled = negsuc 5
to_int32 code_not_found = negsuc 6
to_int32 code_io = negsuc 7
to_int32 code_chart_load = negsuc 19
to_int32 code_chart_invalid = negsuc 20
to_int32 code_values = negsuc 21
to_int32 code_render = negsuc 22
to_int32 code_registry = negsuc 39
to_int32 code_repo = negsuc 40
to_int32 code_kube = negsuc 59
to_int32 code_storage = negsuc 60
to_int32 code_release = negsuc 61

-- The sentinel values that the program tests for with errors.Is.
pub data Sentinel : Type 0 where
  canceled deadline_exceeded release_not_found : Sentinel

-- A non-nil error. `plain` is an error that wraps nothing, `wrapped` is fmt.Errorf with a %w at
-- its end, and `coded` is *CodedError.
pub data Err : Type 0 where
  plain : String → Err
  sentinel : Sentinel → Err
  wrapped : String → Err → Err
  coded : Code → Err → Err

sentinel_text : Sentinel → String
sentinel_text canceled = "context canceled"
sentinel_text deadline_exceeded = "context deadline exceeded"
sentinel_text release_not_found = "release: not found"

-- err.Error()
unfoldable pub error_text : Err → String
unfolding sentinel_text
error_text (plain s) = s
error_text (sentinel s) = sentinel_text s
error_text (wrapped s e) = s ++ error_text e
error_text (coded c e) = error_text e

unfoldable pub same_sentinel : Sentinel → Sentinel → Bool
same_sentinel canceled canceled = true
same_sentinel deadline_exceeded deadline_exceeded = true
same_sentinel release_not_found release_not_found = true
same_sentinel _ _ = false

-- errors.Is, which goes down the chain
unfoldable pub is_err : Sentinel → Err → Bool
unfolding same_sentinel
is_err s (plain t) = false
is_err s (sentinel t) = same_sentinel t s
is_err s (wrapped t e) = is_err s e
is_err s (coded c e) = is_err s e

-- errors.As to *CodedError: the first one on the way down
unfoldable pub as_coded : Err → Option Code
as_coded (plain t) = none
as_coded (sentinel t) = none
as_coded (wrapped t e) = as_coded e
as_coded (coded c e) = some c

-- New
unfoldable pub new_error : Code → String → Err
new_error c msg = coded c (plain msg)

-- WithCode
unfoldable pub with_code : Code → Option Err → Option Err
with_code c none = none
with_code c (some e) = some (coded c e)

-- The tail of FromError, for a chain with no *CodedError.
unfoldable pub code_of_uncoded : Err → Code
unfolding is_err
code_of_uncoded e =
    if is_err canceled e || is_err deadline_exceeded e then code_cancelled else code_unknown

-- FromError
unfoldable pub from_error : Option Err → Code
unfolding as_coded code_of_uncoded
from_error none = code_ok
from_error (some e) = elim (as_coded e) [ none ↦ code_of_uncoded e | some c ↦ c ]
