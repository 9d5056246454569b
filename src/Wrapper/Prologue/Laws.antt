-- ===== src/Wrapper/Prologue/Laws.antt =====
-- pkg/wrapper/actions.go: what the shared entry of install and upgrade does.
use helm_c_sdk.Base.{ℕ, true, Option, ◌≡◌, arith}
use helm_c_sdk.Errors.{Err, coded, sentinel, canceled, code_cancelled}
use helm_c_sdk.Go.{fails, ◌>>=◌}
use helm_c_sdk.Sdk.{Sdk}
use helm_c_sdk.Process.{Object, Process}
use helm_c_sdk.Process.Respects.{
  Frame, Respects, derefs_config, returned, lifted, looked, bound, failed, branched,
}
use helm_c_sdk.Json.{Document}
use helm_c_sdk.Wrapper.Prologue.{is_cancelled, check_not_cancelled, action_prologue}

-- The error of a cancelled context: the first failure of an install or an upgrade.
abbrev pub cancelled_error : Err
cancelled_error = coded code_cancelled (sentinel canceled)

module _ (sdk : Sdk) where
  open sdk use {types}

  module _ (F : Frame types) where
    check_not_cancelled-Respects : (ctx : Option ℕ) → Respects F (check_not_cancelled sdk ctx)
    unfolding check_not_cancelled
    check_not_cancelled-Respects ctx =
        bound F _ _ (looked F (is_cancelled sdk ctx))
          λ gone. branched F gone _ _ (failed F _) (returned F tt)

    pub action_prologue-Respects :
        (ctx : Option ℕ) (obj : Option (Object types)) (values : Document)
        → Respects F (action_prologue sdk ctx obj values)
    unfolding action_prologue
    action_prologue-Respects ctx obj values =
        search (bound, check_not_cancelled-Respects, lifted, derefs_config, returned) depth 16

  pub action_prologue-cancelled :
      (ctx : Option ℕ) (obj : Option (Object types)) (values : Document) (p : Process types)
      → is_cancelled sdk ctx p ≡ true
      → action_prologue sdk ctx obj values p ≡ (fails cancelled_error, p)
  unfolding action_prologue check_not_cancelled ◌>>=◌
  action_prologue-cancelled ctx obj values p e = ground arith
