-- ===== src/Handles/Counting.antt =====
-- internal/handles/handles.go: Count, the leak probe behind helm_open_handles_count.
use helm_c_sdk.Base.{
  ℕ, ◌+◌, ◌%◌, Option-cases, inl, inr, ◌<◌, ◌≡◌, Option, none, some, List, [], ◌∷◌, arith,
}
use helm_c_sdk.Base.Assoc.{lookup, length-insert_new, length-erase, lookup_above}
use helm_c_sdk.Errors.{Err}
use helm_c_sdk.Handles.{
  Registry, Call, puts, gets, frees, frees_typed, counts, u64_mod, put, free, free_typed, count,
  step, run, puts_in,
}
use helm_c_sdk.Handles.Invariant.{Inv, step-Inv, puts_rest, puts_in-cons}

abbrev succeeded : Option Err → ℕ
succeeded none = 1
succeeded (some e) = 0

-- 1 where the call frees an entry.
abbrev pub freed : {A : Type 0} → Call A → Registry A → ℕ
freed (frees id) r = succeeded (free id r).0
freed (frees_typed id t) r = succeeded (free_typed id t r).0
freed _ r = 0

-- How many of the calls of a run free an entry.
abbrev pub frees_in : {A : Type 0} → List (Call A) → Registry A → ℕ
frees_in [] r = 0
frees_in (c ∷ cs) r = freed c r + frees_in cs (step c r)

module _ {A : Type 0} where
  step-count :
      (c : Call A) (r : Registry A)
      → r.next_id + puts_in (c ∷ []) < u64_mod
      → Inv r
      → count (step c r) + freed c r ≡ count r + puts_in (c ∷ [])
  unfolding count step put free free_typed
  step-count (puts t obj) r h v =
      let same : (r.next_id + 1) % u64_mod ≡ r.next_id + 1 = omega arith in
      rw same (
        omega (
          arith,
          length-insert_new (r.next_id + 1) (record { typ = t; obj = obj }) r.entries
              (lookup_above r.next_id (r.next_id + 1) r.entries v.within (omega arith)),
        ))
  step-count (gets id t) r h v = omega arith
  step-count (frees id) r h v = elim (Option-cases (lookup id r.entries)) [
    | inl e ↦ ground arith
    | inr (x, e) ↦ ground (arith, length-erase id r.entries x e)
  ]
  step-count (frees_typed id t) r h v = elim (Option-cases (lookup id r.entries)) [
    | inl e ↦ ground arith
    | inr (x, e) ↦ ground (arith, length-erase id r.entries x e)
  ]
  step-count counts r h v = omega arith

  -- The leak probe is exact: after the calls of any threads, Count is what it was before, plus the
  -- handles issued, minus the frees that succeeded. The registry satisfies its invariant, and fewer
  -- than 2 ^ 64 handles are issued in all.
  pub count-run :
      (cs : List (Call A)) (r : Registry A)
      → r.next_id + puts_in cs < u64_mod
      → Inv r
      → count (run cs r) + frees_in cs r ≡ count r + puts_in cs
  unfolding run
  count-run [] r h v = omega arith
  count-run (c ∷ cs) r h v =
      let (now, later) = puts_rest c cs r h in
      omega (
        arith,
        count-run cs (step c r) later (step-Inv c r now v),
        step-count c r now v,
        puts_in-cons c cs,
      )
