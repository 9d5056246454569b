-- ===== src/Handles/Draining.antt =====
-- internal/handles/handles.go: a client that frees what it holds.
use helm_c_sdk.Base.{
  ℕ, ◌≡◌, refl, ◌∙◌, ap, false, none, List, [], ◌∷◌, map, arith, ◌==◌, if◌then◌else◌, Option-cases,
  inl, inr, any, length,
}
use helm_c_sdk.Base.Assoc.{Assoc, lookup, lookup-erase}
use helm_c_sdk.Handles.{Registry, frees, free, count, step, run}
use helm_c_sdk.Handles.Invariant.{Inv, free-Inv}

-- A map in which no key is found is empty.
nothing_found : {A : Type 0} (m : Assoc A) → ((j : ℕ) → lookup j m ≡ none) → m ≡ []
nothing_found [] h = refl
nothing_found ((k, v) ∷ m) h = absurd (ground (arith, h k))

module _ {A : Type 0} where
  lookup-free :
      (id j : ℕ) (r : Registry A)
      → Inv r
      → lookup j (free id r).1.entries ≡ (if id == j then none else lookup j r.entries)
  unfolding free
  lookup-free id j r v = elim (Option-cases (lookup id r.entries)) [
    | inl e ↦ rw (e, free) (ground (arith, e))
    | inr (x, e) ↦ rw (e, free) (lookup-erase id j r.entries v.distinct)
  ]

  lookup-run_frees :
      (ids : List ℕ) (j : ℕ) (r : Registry A)
      → Inv r
      → lookup j (run (map frees ids) r).entries
        ≡ (if any (λ id. id == j) ids then none else lookup j r.entries)
  unfolding run step
  lookup-run_frees [] j r v = refl
  lookup-run_frees (id ∷ ids) j r v =
      ground (arith, lookup-run_frees ids j (free id r).1 (free-Inv id r v), lookup-free id j r v)

  -- Nothing leaks that a client could not give back: from any registry that satisfies its invariant,
  -- freeing every live handle, in any order, and with any others among them, leaves the registry empty,
  -- which Count reports as 0.
  pub frees_drain :
      (ids : List ℕ) (r : Registry A)
      → Inv r
      → ((j : ℕ) → any (λ id. id == j) ids ≡ false → lookup j r.entries ≡ none)
      → count (run (map frees ids) r) ≡ 0
  unfolding count
  frees_drain ids r v covers = ap length (
      nothing_found (run (map frees ids) r).entries
        (λ j. lookup-run_frees ids j r v ∙ ground (arith, covers j)))
