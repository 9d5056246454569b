-- ===== src/Wrapper/Failures/Laws.antt =====
-- pkg/wrapper/actions.go: the code that an action's failure ends with.
use helm_c_sdk.Base.{◌≡◌, refl, ◌∙◌, ◌||◌, some, List, [], ◌∷◌, sym, arith, if◌then◌else◌}
use helm_c_sdk.Errors.{
  Code, code_cancelled, code_not_found, code_kube, Err, sentinel, coded, canceled,
  deadline_exceeded, release_not_found, is_err, same_sentinel, with_code, from_error, error_text,
}
use helm_c_sdk.Errors.Laws.{Layer, under, is_err-under}
use helm_c_sdk.Wrapper.Failures.{says_unreachable, wrap_action_error}

wrap_action_error_code :
    (e : Err) (fallback : Code)
    → from_error (wrap_action_error (some e) fallback) ≡ (
        if is_err canceled e || is_err deadline_exceeded e
        then code_cancelled
        else if is_err release_not_found e
        then code_not_found
        else if says_unreachable e
        then code_kube
        else fallback)
unfolding from_error wrap_action_error with_code
wrap_action_error_code e fallback = ground arith

-- Whatever wraps them, and whatever codes were attached on the way, a cancelled and an expired
-- context give the cancelled code and a missing release gives the not-found code, for every fallback.
pub sentinel_code_survives :
    (ls : List Layer) (fallback : Code)
    → (from_error (wrap_action_error (some (under ls (sentinel canceled))) fallback)
        ≡ code_cancelled)
      × (from_error (wrap_action_error (some (under ls (sentinel deadline_exceeded))) fallback)
          ≡ code_cancelled)
      × (from_error (wrap_action_error (some (under ls (sentinel release_not_found))) fallback)
          ≡ code_not_found)
unfolding same_sentinel
sentinel_code_survives ls fallback = (
  rw (wrap_action_error_code, is_err-under canceled ls (sentinel canceled)) (unfold is_err in refl),
  rw
      (
        wrap_action_error_code,
        is_err-under canceled ls (sentinel deadline_exceeded),
        is_err-under deadline_exceeded ls (sentinel deadline_exceeded),
      )
      (unfold is_err in refl),
  rw
      (
        wrap_action_error_code,
        is_err-under canceled ls (sentinel release_not_found),
        is_err-under deadline_exceeded ls (sentinel release_not_found),
        is_err-under release_not_found ls (sentinel release_not_found),
      )
      (unfold is_err in refl),
)

says_unreachable-coded : (c : Code) (e : Err) → says_unreachable (coded c e) ≡ says_unreachable e
unfolding says_unreachable error_text
says_unreachable-coded c e = refl

-- An error with codes attached one after the other, the first of them outermost.
abbrev pub attached : List Code → Err → Err
attached [] e = e
attached (c ∷ cs) e = coded c (attached cs e)

-- Codes that the program itself attached to an error are lost: the code that the failure of an action
-- ends with is the one it would end with without them, for every error and every fallback.
pub attached_code_is_lost :
    (cs : List Code) (fallback : Code) (e : Err)
    → from_error (wrap_action_error (some (attached cs e)) fallback)
      ≡ from_error (wrap_action_error (some e) fallback)
unfolding is_err
attached_code_is_lost [] fallback e = refl
attached_code_is_lost (c ∷ cs) fallback e =
    wrap_action_error_code (coded c (attached cs e)) fallback
    ∙ (rw says_unreachable-coded (sym (wrap_action_error_code (attached cs e) fallback))
        ∙ attached_code_is_lost cs fallback e)
