-- ===== src/Json/Decode.antt =====
-- encoding/json: decoding into a struct, driven by a table of the struct's visible fields, with
-- DisallowUnknownFields; and decodeOptions of pkg/wrapper/json.go.
use Prim.Native.String.{◌++◌}
use helm_c_sdk.Base.{
  ℕ, zero, ◌+◌, ◌^◌, Bool, true, false, ◌&&◌, Option, none, some, String, List, [], ◌∷◌, ◌==◌, leb,
  ltb, str_eq, not, keep, any, if◌then◌else◌,
}
use mathlib.Core.List.{◌++◌ as append}
use helm_c_sdk.Base.Text.{codes, quote}
use helm_c_sdk.Base.Int.{ℤ, pos, negsuc}
use helm_c_sdk.Errors.{Err, plain, wrapped, code_invalid_arg}
use helm_c_sdk.Result.{Result, ok, err, or_code}
use helm_c_sdk.Json.{
  Json, null, boolean, number, text, array, object, Items, no_items, item, Fields, no_fields, field,
  Document, empty, malformed, document,
}

-- A visible field of a struct: its key, and how a value is stored. `none` is a type mismatch.
pub record Slot (T : Type 0) : Type 0 where
  pub key : String
  pub store : Json → T → Option T

abbrev pub Table : Type 0 → Type 0
Table T = List (Slot T)

abbrev pub embed_slot : {S T : Type 0} → (S → T) → (T → S → S) → Slot T → Slot S
embed_slot get put s = record {
  key = s.key;
  store = λ j o. elim (s.store j (get o)) [ none ↦ none | some t ↦ some (put t o) ];
}

-- The table of an embedded struct.
abbrev pub embed : {S T : Type 0} → (S → T) → (T → S → S) → Table T → Table S
embed get put [] = []
embed get put (s ∷ ss) = embed_slot get put s ∷ embed get put ss

-- A key of the outer struct hides the same key of an embedded one.
abbrev pub shadow : {S : Type 0} → Table S → Table S → Table S
shadow outer inner = append outer (keep (λ s. not (any (λ o. str_eq o.key s.key) outer)) inner)

abbrev in_int64 : ℤ → Bool
in_int64 (pos n) = ltb n (2 ^ 63)
in_int64 (negsuc n) = ltb n (2 ^ 63)

-- A JSON null as an element is the zero value.
abbrev strings_of : Items → Option (List String)
strings_of no_items = some []
strings_of (item null js) = elim (strings_of js) [ none ↦ none | some ss ↦ some ("" ∷ ss) ]
strings_of (item (text s) js) = elim (strings_of js) [ none ↦ none | some ss ↦ some (s ∷ ss) ]
strings_of (item _ js) = none

abbrev pub StringMap : Type 0
StringMap = List (String × String)

abbrev pub map_insert : String → String → StringMap → StringMap
map_insert k v [] = (k, v) ∷ []
map_insert k v ((j, w) ∷ m) =
    let rest = map_insert k v m in if str_eq j k then (k, v) ∷ m else (j, w) ∷ rest

abbrev map_of : Fields → StringMap → Option StringMap
map_of no_fields m = some m
map_of (field k null fs) m = map_of fs (map_insert k "" m)
map_of (field k (text s) fs) m = map_of fs (map_insert k s m)
map_of (field k _ fs) m = none

module _ {T : Type 0} where
  -- string, bool, int, float64, []string, map[string]string and *bool. A JSON null leaves a plain
  -- field as it is, and makes a slice, a map or a pointer nil.
  abbrev pub string_slot : String → (String → T → T) → Slot T
  string_slot k put = record {
    key = k;
    store = λ j o. elim j [ null ↦ some o | text s ↦ some (put s o) | _ ↦ none ];
  }

  abbrev pub bool_slot : String → (Bool → T → T) → Slot T
  bool_slot k put = record {
    key = k;
    store = λ j o. elim j [ null ↦ some o | boolean b ↦ some (put b o) | _ ↦ none ];
  }

  abbrev store_int : (ℤ → T → T) → ℤ → ℤ → T → Option T
  store_int put m (pos zero) o = if in_int64 m then some (put m o) else none
  store_int put m _ o = none

  abbrev pub int_slot : String → (ℤ → T → T) → Slot T
  int_slot k put = record {
    key = k;
    store = λ j o. elim j [ null ↦ some o | number m e ↦ store_int put m e o | _ ↦ none ];
  }

  abbrev pub float_slot : String → (ℤ → ℤ → T → T) → Slot T
  float_slot k put = record {
    key = k;
    store = λ j o. elim j [ null ↦ some o | number m e ↦ some (put m e o) | _ ↦ none ];
  }

  abbrev pub strings_slot : String → (List String → T → T) → Slot T
  strings_slot k put = record {
    key = k;
    store = λ j o. elim j [
      | null ↦ some (put [] o)
      | array js ↦ elim (strings_of js) [ none ↦ none | some ss ↦ some (put ss o) ]
      | _ ↦ none
    ];
  }

  -- An object is stored into the map that is there.
  abbrev pub map_slot : String → (T → StringMap) → (StringMap → T → T) → Slot T
  map_slot k get put = record {
    key = k;
    store = λ j o. elim j [
      | null ↦ some (put [] o)
      | object fs ↦ elim (map_of fs (get o)) [ none ↦ none | some m ↦ some (put m o) ]
      | _ ↦ none
    ];
  }

  abbrev pub bool_ptr_slot : String → (Option Bool → T → T) → Slot T
  bool_ptr_slot k put = record {
    key = k;
    store =
        λ j o. elim j [ null ↦ some (put none o) | boolean b ↦ some (put (some b) o) | _ ↦ none ];
  }

-- The letters that encoding/json takes for equal when no key fits exactly, for ASCII keys.
fold_code : ℕ → ℕ
fold_code c =
    if leb b'A' c && leb c b'Z'
    then c + 32
    else if c == 0x17f
    then b's'
    else if c == 0x212a
    then b'k'
    else c

fold_eq : List ℕ → List ℕ → Bool
unfolding fold_code
fold_eq [] [] = true
fold_eq (c ∷ s) (d ∷ t) = (fold_code c == fold_code d) && fold_eq s t
fold_eq _ _ = false

unfoldable pub unknown_field : String → Err
unknown_field k = plain ("json: unknown field " ++ quote k)

-- The library's message also names the two types.
unfoldable pub type_mismatch : String → Err
type_mismatch k = plain ("json: cannot unmarshal into Go struct field " ++ k)

module _ {T : Type 0} where
  unfoldable pub first_slot : (Slot T → Bool) → Table T → Option (Slot T)
  first_slot p [] = none
  first_slot p (s ∷ ss) = let rest = first_slot p ss in if p s then some s else rest

  -- The field with this very key, or else the first that differs in case alone.
  unfoldable pub find_slot : Table T → String → Option (Slot T)
  unfolding first_slot fold_eq
  find_slot table k = elim (first_slot (λ s. str_eq s.key k) table) [
    | some s ↦ some s
    | none ↦ first_slot (λ s. fold_eq (codes s.key) (codes k)) table
  ]

  -- The keys in the order of the document; the first failure is the error.
  unfoldable pub decode_fields : Table T → Fields → T → Result T
  decode_fields table no_fields o = ok o
  decode_fields table (field k j fs) o = elim (find_slot table k) [
    | none ↦ err (unknown_field k)
    | some s ↦ elim (s.store j o) [
      | none ↦ err (type_mismatch s.key)
      | some o' ↦ decode_fields table fs o'
    ]
  ]

  -- json.Decoder.Decode into a struct, for one document.
  unfoldable pub decode : Table T → Json → T → Result T
  decode table (object fs) o = decode_fields table fs o
  decode table null o = ok o
  decode table _ o = err (type_mismatch "")

  -- decodeOptions: the zero value for no text, strict decoding otherwise.
  unfoldable pub decode_options : Table T → T → String → Document → Result T
  decode_options table zero_value what empty = ok zero_value
  decode_options table zero_value what (malformed e) =
      or_code code_invalid_arg (err (wrapped ("invalid " ++ (what ++ " options JSON: ")) e))
  decode_options table zero_value what (document j) = elim (decode table j zero_value) [
    | ok o ↦ ok o
    | err e ↦ or_code code_invalid_arg (err (wrapped ("invalid " ++ (what ++ " options JSON: ")) e))
  ]
