-- ===== src/Capi/Contexts/Frame.antt =====
-- capi/config.go: finding and cancelling a context respects every relation that changes of the
-- outside world respect.
use helm_c_sdk.Base.{ℕ, none, some}
use helm_c_sdk.Go.{modify}
use helm_c_sdk.Handles.{type_context}
use helm_c_sdk.Sdk.Structs.{Types}
use helm_c_sdk.Process.{Object, Process}
use helm_c_sdk.Process.Respects.{Frame, Respects, returned, swept, bound, branched}
use helm_c_sdk.Capi.Boundary.{ErrorOut}
use helm_c_sdk.Capi.Boundary.Frame.{status_result-Rel}
use helm_c_sdk.Capi.Registry.Frame.{get-Respects}
use helm_c_sdk.Capi.Contexts.{
  cancel, assert_context, ctx_entry_for, cancel_object, ctx_or_background, helm_context_cancel,
}

module _ {t : Types} (F : Frame t) where
  pub assert-Respects : (obj : Object t) → Respects F (assert_context obj)
  unfolding assert_context
  assert-Respects (Object.context c) = record { at = λ p. F.here p }
  assert-Respects (Object.chart c) = record { at = λ p. F.here p }
  assert-Respects (Object.config c) = record { at = λ p. F.here p }
  assert-Respects (Object.client c) = record { at = λ p. F.here p }

  pub entry-Respects : (h : ℕ) → Respects F (ctx_entry_for {t = t} h)
  unfolding ctx_entry_for
  entry-Respects h = bound F _ _ (get-Respects F h type_context) assert-Respects

  cancels : (c : ℕ) → Respects F (modify (cancel {t = t} c))
  unfolding cancel
  cancels c = swept F _

  pub hook-Respects : (obj : Object t) → Respects F (cancel_object obj)
  unfolding cancel_object
  hook-Respects obj = bound F _ _ (assert-Respects obj) cancels

  pub background-Respects : (h : ℕ) → Respects F (ctx_or_background {t = t} h)
  unfolding ctx_or_background
  background-Respects h =
      branched F _ _ _ (returned F none) (bound F _ _ (entry-Respects h) λ c. returned F (some c))

  pub helm_context_cancel-Rel :
      (h : ℕ) (o : ErrorOut) (p : Process t) → F.Rel p (helm_context_cancel h o p).1
  unfolding helm_context_cancel
  helm_context_cancel-Rel h o p = status_result-Rel F o _ p (bound F _ _ (entry-Respects h) cancels)
