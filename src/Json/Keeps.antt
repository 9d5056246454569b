-- ===== src/Json/Keeps.antt =====
-- encoding/json: what no field of the table can change stays as it was in the zero value.
use mathlib.Core.Path.{subst}
use helm_c_sdk.Base.{
  false, sym, ap, some_inj, none-ne-some, Bool, Bool-cases, str_eq, ◌∙◌, ◌≡◌, some, String, [], ◌∷◌,
  arith, inl, inr, Option-cases,
}
use helm_c_sdk.Result.{ok, ok-injective, err-ne-ok, Result-cases}
use helm_c_sdk.Json.{
  Json, text, boolean, Fields, no_fields, field, object, null, Document, empty, malformed, document,
}
use helm_c_sdk.Json.Decode.{
  Table, Slot, string_slot, bool_slot, embed_slot, first_slot, find_slot, decode_fields, decode,
  decode_options,
}

module _ {T : Type 0} (P : T → Type 0) where
  abbrev pub SlotKeeps : Slot T → Type 0
  SlotKeeps s = (j : Json) (o o' : T) → P o → s.store j o ≡ some o' → P o'

  abbrev pub TableKeeps : Table T → Type 0
  TableKeeps [] = Unit {0}
  TableKeeps (s ∷ ss) = SlotKeeps s × TableKeeps ss

  first_slot-Keeps :
      (p : Slot T → Bool) (table : Table T) (s : Slot T)
      → TableKeeps table
      → first_slot p table ≡ some s
      → SlotKeeps s
  unfolding first_slot
  first_slot-Keeps p [] s h e = absurd (none-ne-some e)
  first_slot-Keeps p (x ∷ xs) s h e = elim (Bool-cases (p x)) [
    | inl hit ↦ subst SlotKeeps (some_inj (rw hit at e)) h.0
    | inr miss ↦ first_slot-Keeps p xs s h.1 (rw miss at e)
  ]

  find_slot-Keeps :
      (table : Table T) (k : String) (s : Slot T)
      → TableKeeps table
      → find_slot table k ≡ some s
      → SlotKeeps s
  unfolding find_slot
  find_slot-Keeps table k s h e = elim (Option-cases (first_slot (λ s. str_eq s.key k) table)) [
    | inl none_exact ↦ first_slot-Keeps _ table s h (rw (none_exact, find_slot) at e)
    | inr (x, exact) ↦ first_slot-Keeps _ table s h (exact ∙ (rw (exact, find_slot) at e))
  ]

  decode_fields-Keeps :
      (table : Table T) (fs : Fields) (o o' : T)
      → TableKeeps table
      → P o
      → decode_fields table fs o ≡ ok o'
      → P o'
  unfolding decode_fields
  decode_fields-Keeps table no_fields o o' h p e = subst P (ok-injective e) p
  decode_fields-Keeps table (field k j fs) o o' h p e = elim (Option-cases (find_slot table k)) [
    | inl bad ↦ absurd (err-ne-ok (rw (bad, decode_fields) at e))
    | inr (s, found) ↦ elim (Option-cases (s.store j o)) [
      | inl bad ↦ absurd (err-ne-ok (rw bad at (rw (found, decode_fields) at e)))
      | inr (next, stored) ↦
          decode_fields-Keeps table fs next o' h
            (find_slot-Keeps table k s h found j o next p stored)
            (rw stored at (rw (found, decode_fields) at e))
    ]
  ]

  -- A property of the zero value that every field's storing keeps holds of every decoded value.
  pub decode_options-Keeps :
      (table : Table T) (zero_value : T) (what : String) (d : Document) (o : T)
      → TableKeeps table
      → P zero_value
      → decode_options table zero_value what d ≡ ok o
      → P o
  unfolding decode_options decode
  decode_options-Keeps table z what empty o h p e = subst P (ok-injective e) p
  decode_options-Keeps table z what (malformed x) o h p e = absurd (err-ne-ok e)
  decode_options-Keeps table z what (document (object fs)) o h p e =
      elim (Result-cases (decode_fields table fs z)) [
        | inl (y, good) ↦
            decode_fields-Keeps table fs z o h p (good ∙ (rw (good, decode_options) at e))
        | inr (x, bad) ↦ absurd (err-ne-ok (rw (bad, decode_options) at e))
      ]
  decode_options-Keeps table z what (document null) o h p e = subst P (ok-injective e) p
  decode_options-Keeps table z what (document _) o h p e = absurd (err-ne-ok e)

-- A test of the record that no text and no flag of a slot moves.
module _ {T : Type 0} (test : T → Bool) where
  pub string_slot-Keeps :
      (k : String) (put : String → T → T)
      → ((v : String) (o : T) → test (put v o) ≡ test o)
      → SlotKeeps (λ o. test o ≡ false) (string_slot k put)
  string_slot-Keeps k put same null o o' p e = ap test (sym (some_inj e)) ∙ p
  string_slot-Keeps k put same (text s) o o' p e = ap test (sym (some_inj e)) ∙ same s o ∙ p
  string_slot-Keeps k put same _ o o' p e = absurd (none-ne-some e)

  pub bool_slot-Keeps :
      (k : String) (put : Bool → T → T)
      → ((v : Bool) (o : T) → test (put v o) ≡ test o)
      → SlotKeeps (λ o. test o ≡ false) (bool_slot k put)
  bool_slot-Keeps k put same null o o' p e = ap test (sym (some_inj e)) ∙ p
  bool_slot-Keeps k put same (boolean s) o o' p e = ap test (sym (some_inj e)) ∙ same s o ∙ p
  bool_slot-Keeps k put same _ o o' p e = absurd (none-ne-some e)

  pub embed_slot-Keeps :
      {S : Type 0} (get : S → T) (put : T → S → S) (s : Slot T)
      → ((t : T) (o : S) → test (get (put t o)) ≡ test t)
      → SlotKeeps (λ t. test t ≡ false) s
      → SlotKeeps (λ o. test (get o) ≡ false) (embed_slot get put s)
  embed_slot-Keeps get put s law kept j o o' p e = elim (Option-cases (s.store j (get o))) [
    | inl bad ↦ ground (arith, bad, e)
    | inr (t, good) ↦ ground (arith, good, e, law t o, kept j (get o) t p good)
  ]
