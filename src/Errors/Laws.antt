-- ===== src/Errors/Laws.antt =====
-- pkg/cerrors/cerrors.go: the code of a wrapped error, and the numbers at the C boundary.
use helm_c_sdk.Base.{◌≡◌, refl, ◌≢◌, none, some, String, List, [], ◌∷◌, arith}
use helm_c_sdk.Base.Int.{pos, IsNeg}
use helm_c_sdk.Errors.{
  Code, code_ok, to_int32, Sentinel, Err, plain, sentinel, wrapped, coded, is_err, as_coded,
  with_code, from_error,
}

-- One step of wrapping: fmt.Errorf with %w, or WithCode.
pub data Layer : Type 0 where
  prefix : String → Layer
  code : Code → Layer

abbrev pub add_layer : Layer → Err → Err
add_layer (prefix s) e = wrapped s e
add_layer (code c) e = coded c e

-- The first layer is the outermost.
abbrev pub under : List Layer → Err → Err
under [] e = e
under (l ∷ ls) e = add_layer l (under ls e)

abbrev pub prefixes : List String → List Layer
prefixes [] = []
prefixes (s ∷ ss) = prefix s ∷ prefixes ss

-- A sentinel is found under any wrapping, whatever codes were attached on the way.
pub is_err-under : (s : Sentinel) (ls : List Layer) (e : Err) → is_err s (under ls e) ≡ is_err s e
unfolding is_err
is_err-under s [] e = refl
is_err-under s (prefix p ∷ ls) e = is_err-under s ls e
is_err-under s (code c ∷ ls) e = is_err-under s ls e

as_coded-prefixes : (ps : List String) (e : Err) → as_coded (under (prefixes ps) e) ≡ as_coded e
unfolding as_coded
as_coded-prefixes [] e = refl
as_coded-prefixes (p ∷ ps) e = as_coded-prefixes ps e

prefixed_code :
    (ps : List String) (c : Code) (e : Err)
    → from_error (some (under (prefixes ps) (coded c e))) ≡ c
unfolding from_error
prefixed_code ps c e = ground (arith, as_coded-prefixes ps (coded c e))

-- The code of an error is the OUTERMOST one: under any number of fmt.Errorf wrappings the code that
-- was attached last is resolved, and every code attached before it is without effect.
pub outermost_code_wins :
    (ps : List String) (c : Code) (e : Err)
    → (from_error (with_code c (some e)) ≡ c)
      × (from_error (some (under (prefixes ps) (coded c e))) ≡ c)
outermost_code_wins ps c e = (unfold from_error with_code in refl, prefixed_code ps c e)

-- No code_ok is attached anywhere in the chain.
abbrev pub NeverOk : Err → Type 0
NeverOk (plain s) = Unit {0}
NeverOk (sentinel s) = Unit {0}
NeverOk (wrapped s e) = NeverOk e
NeverOk (coded c e) = (c ≢ code_ok) × NeverOk e

from_error-ne-ok : (e : Err) → NeverOk e → from_error (some e) ≢ code_ok
unfolding from_error
from_error-ne-ok (plain s) h = ground arith
from_error-ne-ok (sentinel s) h = ground arith
from_error-ne-ok (wrapped s e) h = ground (arith, from_error-ne-ok e h)
from_error-ne-ok (coded c e) h = h.0

IsNeg-of_ne_ok : (c : Code) → c ≢ code_ok → IsNeg (to_int32 c)
unfolding to_int32
IsNeg-of_ne_ok code_ok h = absurd (h refl)
IsNeg-of_ne_ok _ h = tt

-- The C return value separates success from failure: nil gives 0, and every error in whose chain
-- nobody attached the OK code gives a negative number.
pub from_error_sign :
    (e : Err)
    → NeverOk e
    → (to_int32 (from_error none) ≡ pos 0) × IsNeg (to_int32 (from_error (some e)))
from_error_sign e h = (
  unfold from_error to_int32 in refl,
  IsNeg-of_ne_ok (from_error (some e)) (from_error-ne-ok e h),
)
