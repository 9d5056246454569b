-- ===== src/Capi/Contexts/Cancelling.antt =====
-- capi/config.go and capi/actions.go: what cancelling a context does to a later action.
use helm_c_sdk.Base.{ℕ, ◌≡◌, refl, ◌≢◌, ◌∙◌, arith, true, false, some, ◌==◌}
use helm_c_sdk.Result.{ok}
use helm_c_sdk.Go.{returns, pure, modify}
use helm_c_sdk.Go.Laws.{bind-returns}
use helm_c_sdk.Handles.{type_context, get}
use helm_c_sdk.Sdk.{Sdk}
use helm_c_sdk.Sdk.Structs.{Types}
use helm_c_sdk.Process.{Object, Process}
use helm_c_sdk.Wrapper.Prologue.{is_cancelled}
use helm_c_sdk.Capi.Boundary.{ErrorOut, clear_error_out, success, status_result}
use helm_c_sdk.Capi.Registry.Frees.{registry_get-ok}
use helm_c_sdk.Capi.Contexts.{
  cancel, assert_context, ctx_entry_for, cancel_body, helm_context_cancel, some_context,
  ctx_or_background,
}

module _ {t : Types} (h c : ℕ) (p : Process t) where
  ctx_entry_for-ok :
      get h type_context p.registry ≡ ok (Object.context c) → ctx_entry_for h p ≡ (returns c, p)
  unfolding ctx_entry_for
  ctx_entry_for-ok held =
      bind-returns _ _ p p (Object.context c)
        (registry_get-ok h type_context p (Object.context c) held)
      ∙ (unfold assert_context in refl)

  pub ctx_or_background-ok :
      h ≢ 0
      → get h type_context p.registry ≡ ok (Object.context c)
      → ctx_or_background h p ≡ (returns (some c), p)
  unfolding ctx_or_background some_context
  ctx_or_background-ok ne held =
      let given : (h == 0) ≡ false = ground arith in
      rw given (bind-returns _ _ p p c (ctx_entry_for-ok held) ∙ (unfold pure in refl))

  pub helm_context_cancel-ok :
      (o : ErrorOut)
      → get h type_context p.registry ≡ ok (Object.context c)
      → helm_context_cancel h o p ≡ (success tt (clear_error_out o), cancel c p)
  unfolding helm_context_cancel status_result
  helm_context_cancel-ok o held =
      let ran : cancel_body h p ≡ (returns tt, cancel c p) =
        unfold cancel_body in
        (bind-returns _ _ p p c (ctx_entry_for-ok held) ∙ (unfold modify in refl)) in
      rw ran refl

pub is_cancelled-cancel :
    (sdk : Sdk) (c : ℕ) (p : Process sdk.types) → is_cancelled sdk (some c) (cancel c p) ≡ true
unfolding is_cancelled cancel
is_cancelled-cancel sdk c p = ground arith
