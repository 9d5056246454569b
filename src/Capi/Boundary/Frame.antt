-- ===== src/Capi/Boundary/Frame.antt =====
-- The shims of capi: an export respects what its body respects.
use helm_c_sdk.Base.{ℕ, Option, none, some, String}
use helm_c_sdk.Go.{Go}
use helm_c_sdk.Sdk.Structs.{Types}
use helm_c_sdk.Process.{Process}
use helm_c_sdk.Process.Respects.{Frame, Respects}
use helm_c_sdk.Capi.Boundary.{
  Slot, null, holds, CString, ErrorOut, string_result, named_result, handle_result, status_result,
}

module _ {types : Types} (F : Frame types) where
  module _ {A : Type 0} where
    pub string_result-Rel :
        (out : Slot (Option A)) (o : ErrorOut) (run : Go (Process types) A) (p : Process types)
        → Respects F run
        → F.Rel p (string_result out o run p).1
    unfolding string_result
    string_result-Rel null o run p k = F.here p
    string_result-Rel (holds x) o run p k = k.at p

    pub named_result-Rel :
        (name : CString) (out : Slot (Option A)) (o : ErrorOut)
        (run : String → Go (Process types) A) (p : Process types)
        → ((s : String) → Respects F (run s))
        → F.Rel p (named_result name out o run p).1
    unfolding named_result
    named_result-Rel none out o run p k = F.here p
    named_result-Rel (some s) null o run p k = F.here p
    named_result-Rel (some s) (holds x) o run p k = (k s).at p

  pub handle_result-Rel :
      (out : Slot ℕ) (o : ErrorOut) (run : Go (Process types) ℕ) (p : Process types)
      → Respects F run
      → F.Rel p (handle_result out o run p).1
  unfolding handle_result
  handle_result-Rel null o run p k = F.here p
  handle_result-Rel (holds x) o run p k = k.at p

  pub status_result-Rel :
      (o : ErrorOut) (run : Go (Process types) (Unit {0})) (p : Process types)
      → Respects F run
      → F.Rel p (status_result o run p).1
  unfolding status_result
  status_result-Rel o run p k = k.at p
