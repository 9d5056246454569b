-- ===== src/Json.antt =====
-- encoding/json as pkg/wrapper/json.go uses it. A JSON argument of the C ABI is represented by what
-- the scanner makes of its text: nothing, a syntax error, or one document. A number keeps its
-- literal, mantissa times ten to the exponent.
pub mod Decode
pub mod Strict
pub mod Keeps
use helm_c_sdk.Base.{Bool, String}
use helm_c_sdk.Base.Int.{ℤ}
use helm_c_sdk.Errors.{Err}

mutual
  pub data Json : Type 0 where
    null : Json
    boolean : Bool → Json
    number : ℤ → ℤ → Json
    text : String → Json
    array : Items → Json
    object : Fields → Json

  pub data Items : Type 0 where
    no_items : Items
    item : Json → Items → Items

  pub data Fields : Type 0 where
    no_fields : Fields
    field : String → Json → Fields → Fields

-- An argument that holds JSON text.
pub data Document : Type 0 where
  empty : Document
  malformed : Err → Document
  document : Json → Document
