-- ===== src/Base/Assoc.antt =====
-- Go's maps with numbers for keys, as association lists.
use helm_c_sdk.Base.Tests.{◌==◌, if◌then◌else◌, Bool-cases}
use helm_c_sdk.Base.Lists.{length}
use Prim.Native.Nat.{ℕ, ◌+◌, ◌<◌, ◌≤◌}
use mathlib.Core.Path.{◌≡◌, refl, ◌∙◌}
use mathlib.Core.Logic.{◌≢◌, inl, inr}
use mathlib.Core.Option.{Option, none, some}
use mathlib.Core.List.{List, [], ◌∷◌}
use native.Mathlib.Omega.{arith}

abbrev pub Assoc {ℓ} : Type ℓ → Type ℓ
Assoc V = List (ℕ × V)

module _ {ℓ} {V : Type ℓ} where
  -- v, ok := m[k]
  abbrev pub lookup : ℕ → Assoc V → Option V
  lookup k [] = none
  lookup k ((j, v) ∷ m) = let rest = lookup k m in if j == k then some v else rest

  -- m[k] = v
  abbrev pub insert : ℕ → V → Assoc V → Assoc V
  insert k v [] = (k, v) ∷ []
  insert k v ((j, w) ∷ m) = let rest = insert k v m in if j == k then (k, v) ∷ m else (j, w) ∷ rest

  -- delete(m, k)
  abbrev pub erase : ℕ → Assoc V → Assoc V
  erase k [] = []
  erase k ((j, w) ∷ m) = let rest = erase k m in if j == k then m else (j, w) ∷ rest

  -- No key twice.
  abbrev pub IsMap : Assoc V → Type ℓ
  IsMap [] = Unit
  IsMap ((k, v) ∷ m) = (lookup k m ≡ none) × IsMap m

  -- Every key lies in 1 .. n.
  abbrev pub Within : ℕ → Assoc V → Type 0
  Within n [] = Unit {0}
  Within n ((k, v) ∷ m) = (0 < k) × (k ≤ n) × Within n m

  pub lookup-insert :
      (k j : ℕ) (v : V) (m : Assoc V)
      → lookup j (insert k v m) ≡ (if k == j then some v else lookup j m)
  lookup-insert k j v [] = refl
  lookup-insert k j v ((i, w) ∷ m) = ground (arith, lookup-insert k j v m)

  pub lookup-erase_ne : (k j : ℕ) (m : Assoc V) → k ≢ j → lookup j (erase k m) ≡ lookup j m
  lookup-erase_ne k j [] h = refl
  lookup-erase_ne k j ((i, w) ∷ m) h = ground (arith, lookup-erase_ne k j m h)

  pub lookup-erase-none : (k j : ℕ) (m : Assoc V) → lookup j m ≡ none → lookup j (erase k m) ≡ none
  lookup-erase-none k j [] h = refl
  lookup-erase-none k j ((i, w) ∷ m) h = ground (arith, lookup-erase-none k j m)

  pub lookup-erase_self : (k : ℕ) (m : Assoc V) → IsMap m → lookup k (erase k m) ≡ none
  lookup-erase_self k [] h = refl
  lookup-erase_self k ((i, w) ∷ m) h = ground (arith, lookup-erase_self k m h.1)

  pub lookup-erase :
      (k j : ℕ) (m : Assoc V)
      → IsMap m
      → lookup j (erase k m) ≡ (if k == j then none else lookup j m)
  lookup-erase k j [] h = ground arith
  lookup-erase k j ((i, w) ∷ m) h = ground (arith, lookup-erase k j m h.1)

  pub insert-IsMap : (k : ℕ) (v : V) (m : Assoc V) → IsMap m → IsMap (insert k v m)
  insert-IsMap k v [] h = (refl, tt)
  insert-IsMap k v ((i, w) ∷ m) h = ground (arith, insert-IsMap k v m h.1, lookup-insert k i v m)

  pub erase-IsMap : (k : ℕ) (m : Assoc V) → IsMap m → IsMap (erase k m)
  erase-IsMap k [] h = tt
  erase-IsMap k ((i, w) ∷ m) h = elim (Bool-cases (i == k)) [
    | inl same ↦ rw same h.1
    | inr other ↦ rw other (lookup-erase_ne k i m (ground arith) ∙ h.0, erase-IsMap k m h.1)
  ]

  pub Within-mono : (n p : ℕ) (m : Assoc V) → n ≤ p → Within n m → Within p m
  Within-mono n p [] h w = tt
  Within-mono n p ((i, v) ∷ m) h w = (omega arith, omega arith, Within-mono n p m h w.2)

  pub insert-Within :
      (n k : ℕ) (v : V) (m : Assoc V) → 0 < k → k ≤ n → Within n m → Within n (insert k v m)
  insert-Within n k v [] p h w = (p, h, tt)
  insert-Within n k v ((i, x) ∷ m) p h w = ground (arith, insert-Within n k v m p h w.2)

  pub erase-Within : (n k : ℕ) (m : Assoc V) → Within n m → Within n (erase k m)
  erase-Within n k [] w = tt
  erase-Within n k ((i, x) ∷ m) w = ground (arith, erase-Within n k m w.2)

  pub lookup_above : (n k : ℕ) (m : Assoc V) → Within n m → n < k → lookup k m ≡ none
  lookup_above n k [] w h = refl
  lookup_above n k ((i, x) ∷ m) w h = ground (arith, lookup_above n k m w.2 h)

  pub lookup_zero : (n : ℕ) (m : Assoc V) → Within n m → lookup 0 m ≡ none
  lookup_zero n [] w = refl
  lookup_zero n ((i, x) ∷ m) w = ground (arith, lookup_zero n m w.2)

  pub length-insert_new :
      (k : ℕ) (v : V) (m : Assoc V) → lookup k m ≡ none → length (insert k v m) ≡ length m + 1
  length-insert_new k v [] h = omega arith
  length-insert_new k v ((i, x) ∷ m) h = ground (arith, length-insert_new k v m)

  pub length-erase :
      (k : ℕ) (m : Assoc V) (v : V) → lookup k m ≡ some v → length (erase k m) + 1 ≡ length m
  length-erase k [] v h = ground arith
  length-erase k ((i, x) ∷ m) v h = ground (arith, length-erase k m v)
