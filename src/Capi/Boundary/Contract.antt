-- ===== src/Capi/Boundary/Contract.antt =====
-- capi: the contract of every export with the caller's memory.
use helm_c_sdk.Base.{ℕ, ◌≡◌, refl, Option, none, some, String}
use helm_c_sdk.Base.Int.{pos, IsNeg}
use helm_c_sdk.Errors.{Err, code_panic, to_int32}
use helm_c_sdk.Errors.Laws.{NeverOk, from_error_sign}
use helm_c_sdk.Go.{Outcome, returns, fails, panics, Go}
use helm_c_sdk.Capi.Boundary.{
  null, holds, ErrorOut, Reply, clear_error_out, c_error_out, failure, recovered, success, reply,
  string_result, handle_result, status_result,
}

-- There is a text where the caller asked for one.
abbrev pub HasText : ErrorOut → Type 0
HasText null = Unit {0}
HasText (holds none) = ⊥
HasText (holds (some s)) = Unit {0}

abbrev pub NoText : ErrorOut → Type 0
NoText null = Unit {0}
NoText (holds none) = Unit {0}
NoText (holds (some s)) = ⊥

-- The body has no failure in whose chain somebody attached the OK code.
abbrev pub SoundBody : {A : Type 0} → Outcome A → Type 0
SoundBody (returns a) = Unit {0}
SoundBody (fails e) = NeverOk e
SoundBody (panics m) = Unit {0}

-- Success: the code is 0, the value is written, and there is no error text. Failure: the code is
-- negative, the caller's out-parameter is as it was, and there is an error text.
abbrev pub Honest : {A V : Type 0} → (A → V) → V → Outcome A → Reply V → Type 0
Honest write out (returns a) r = (r.code ≡ pos 0) × (r.out ≡ write a) × NoText r.error_out
Honest write out (fails e) r = IsNeg r.code × (r.out ≡ out) × HasText r.error_out
Honest write out (panics m) r = (r.code ≡ to_int32 code_panic) × (r.out ≡ out) × HasText r.error_out

text_written : (o : ErrorOut) (e : Err) → HasText (c_error_out o e)
unfolding c_error_out
text_written null e = tt
text_written (holds s) e = tt

cleared : (o : ErrorOut) → NoText (clear_error_out o)
unfolding clear_error_out
cleared null = tt
cleared (holds s) = tt

module _ {A V : Type 0} (write : A → V) (out : V) where
  panic_written : (o : ErrorOut) (m : String) → HasText (recovered out o m).error_out
  unfolding recovered
  panic_written null m = tt
  panic_written (holds s) m = tt

  reply-Honest :
      (o : ErrorOut) (r : Outcome A)
      → SoundBody r
      → Honest write out r (reply write out (clear_error_out o) r)
  unfolding reply success failure recovered to_int32
  reply-Honest o (returns a) h = (refl, refl, cleared o)
  reply-Honest o (fails e) h = ((from_error_sign e h).1, refl, text_written (clear_error_out o) e)
  reply-Honest o (panics m) h = (refl, refl, panic_written (clear_error_out o) m)

-- Every string-valued export is honest with its caller: the code is 0 exactly when the body returned,
-- and then the text is in *out and *error_out is NULL; a failure gives a negative code and a panic the
-- panic code, *out is untouched, and *error_out, if there is one, holds a text. The state is the
-- one that the body left. The caller passed an out-parameter, and no failure carries the OK code.
pub string_result-Honest :
    {S A : Type 0} (x : Option A) (o : ErrorOut) (run : Go S A) (s : S)
    → SoundBody (run s).0
    → Honest (λ a. holds (some a)) (holds x) (run s).0 (string_result (holds x) o run s).0
      × ((string_result (holds x) o run s).1 ≡ (run s).1)
unfolding string_result
string_result-Honest x o run s h =
    (reply-Honest (λ a. holds (some a)) (holds x) o (run s).0 h, refl)

-- The same of every handle-valued export.
pub handle_result-Honest :
    {S : Type 0} (x : ℕ) (o : ErrorOut) (run : Go S ℕ) (s : S)
    → SoundBody (run s).0
    → Honest (λ h. holds h) (holds x) (run s).0 (handle_result (holds x) o run s).0
      × ((handle_result (holds x) o run s).1 ≡ (run s).1)
unfolding handle_result
handle_result-Honest x o run s h = (reply-Honest (λ a. holds a) (holds x) o (run s).0 h, refl)

-- ... and of every export that has a status only.
pub status_result-Honest :
    {S : Type 0} (o : ErrorOut) (run : Go S (Unit {0})) (s : S)
    → SoundBody (run s).0
    → Honest (λ a. tt) tt (run s).0 (status_result o run s).0
      × ((status_result o run s).1 ≡ (run s).1)
unfolding status_result
status_result-Honest o run s h = (reply-Honest (λ a. tt) tt o (run s).0 h, refl)
