-- ===== src/Json/Strict.antt =====
-- pkg/wrapper/json.go: what decodeOptions refuses, and the code of the refusal.
use Prim.Native.String.{◌++◌}
use helm_c_sdk.Base.{◌≡◌, refl, none, some, String, arith, inl, inr, Option-cases}
use helm_c_sdk.Errors.{Err, coded, wrapped, code_invalid_arg, from_error}
use helm_c_sdk.Result.{err}
use helm_c_sdk.Json.{Json, Fields, no_fields, field, object, Document, empty, malformed, document}
use helm_c_sdk.Json.Decode.{
  Table, find_slot, decode_fields, decode, decode_options, unknown_field, type_mismatch,
}

module _ {T : Type 0} (table : Table T) where
  -- Some key of the object belongs to no field of the struct.
  pub data HasUnknown : Fields → Type 0 where
    here :
        {k : String} {j : Json} {fs : Fields} → find_slot table k ≡ none → HasUnknown (field k j fs)
    there : {k : String} {j : Json} {fs : Fields} → HasUnknown fs → HasUnknown (field k j fs)

  decode_fields-unknown :
      (fs : Fields) (o : T) → HasUnknown fs → (e : Err) × (decode_fields table fs o ≡ err e)
  unfolding decode_fields
  decode_fields-unknown no_fields o h = elim h [ ]
  decode_fields-unknown (field k j fs) o (here h) = (unknown_field k, rw (h, decode_fields))
  decode_fields-unknown (field k j fs) o (there h) = elim (Option-cases (find_slot table k)) [
    | inl e ↦ (unknown_field k, rw (e, decode_fields))
    | inr (s, e) ↦ elim (Option-cases (s.store j o)) [
      | inl bad ↦ (type_mismatch s.key, rw (e, decode_fields) (rw bad))
      | inr (o', good) ↦
          let (x, rest) = decode_fields-unknown fs o' h in (x, rw (e, decode_fields) (rw good rest))
    ]
  ]

  -- A key that names no field of the options struct, anywhere in the document, makes the decoding
  -- fail with the invalid-argument code: a misspelt option is never ignored.
  pub unknown_key_fails :
      (zero_value : T) (what : String) (fs : Fields)
      → HasUnknown fs
      → (e : Err) × (decode_options table zero_value what (document (object fs)) ≡ err e)
        × (from_error (some e) ≡ code_invalid_arg)
  unfolding decode_options decode from_error
  unknown_key_fails z what fs h =
      let (x, e) = decode_fields-unknown fs z h in
      (
        coded code_invalid_arg (wrapped ("invalid " ++ (what ++ " options JSON: ")) x),
        rw (e, decode_options) refl,
        refl,
      )

  -- Whatever the text, decoding fails with the invalid-argument code or not at all.
  pub decode_failure_code :
      (zero_value : T) (what : String) (d : Document) (e : Err)
      → decode_options table zero_value what d ≡ err e
      → from_error (some e) ≡ code_invalid_arg
  unfolding decode_options from_error
  decode_failure_code z what empty e h = ground arith
  decode_failure_code z what (malformed x) e h = ground arith
  decode_failure_code z what (document j) e h = ground arith
