-- ===== src/Tests/Handles.antt =====
-- The registry of internal/handles at small inputs.
use helm_c_sdk.Base.{
  ℕ, false, any, map, ◌==◌, ◌+◌, ◌<◌, ◌≡◌, refl, inl, none, String, List, [], ◌∷◌, arith,
}
use helm_c_sdk.Base.Assoc.{lookup}
use helm_c_sdk.Result.{ok, err}
use helm_c_sdk.Handles.{
  Registry, Call, new_registry, gets, puts, frees, frees_typed, counts, put, get, free, count, run,
  err_wrong_type, puts_in,
}
use helm_c_sdk.Handles.Invariant.{Inv, run-Inv}
use helm_c_sdk.Handles.Refinement.{answers, all_allowed, no_handles, registry_refines}
use helm_c_sdk.Handles.Draining.{frees_drain}
use helm_c_sdk.Handles.Lifetime.{IsDead, freed-IsDead, put_lives}
use helm_c_sdk.Handles.Counting.{frees_in, count-run}

abbrev two_handles : Registry String
two_handles = record {
  next_id = 2;
  entries = (1, record { typ = 1; obj = "a" }) ∷ (2, record { typ = 2; obj = "b" }) ∷ [];
}

abbrev one_left : Registry String
one_left = record { next_id = 2; entries = (2, record { typ = 2; obj = "b" }) ∷ [] }

two_handles-Inv : Inv two_handles
two_handles-Inv = record {
  within = omega arith;
  distinct = (refl, (refl, tt));
  small = omega arith;
}

abbrev later : List (Call String)
later = frees 1 ∷ puts 1 "c" ∷ frees_typed 2 1 ∷ counts ∷ []

run-Inv_example : Inv (run later two_handles)
run-Inv_example = run-Inv later two_handles (omega arith) two_handles-Inv

freed-IsDead_example : IsDead 1 (run later one_left)
unfolding free
freed-IsDead_example =
    freed-IsDead 1 1 two_handles one_left later two_handles-Inv (omega arith) (inl refl)

put_lives_example :
    let (id, r') = put 1 "c" two_handles in
    (0 < id)
    × (lookup id two_handles.entries ≡ none)
    × (get id 1 (run later r') ≡ ok "c")
    × (get id 2 (run later r') ≡ err (err_wrong_type id 1 2))
unfolding put
put_lives_example =
    put_lives 1 2 "c" two_handles later two_handles-Inv (omega arith)
      (refl, (refl, (refl, (refl, tt)))) (omega arith)

count-run_example :
    count (run later two_handles) + frees_in later two_handles ≡ count two_handles + puts_in later
count-run_example = count-run later two_handles (omega arith) two_handles-Inv

-- Two puts, a lookup under the wrong type, and a double free.
abbrev churn : List (Call String)
churn = puts 1 "a" ∷ puts 2 "b" ∷ gets 1 2 ∷ frees 1 ∷ frees 1 ∷ counts ∷ []

registry_refines_example : answers churn new_registry ≡ all_allowed churn no_handles
registry_refines_example = registry_refines churn (omega arith)

two_listed :
    (j : ℕ) → any (λ id. id == j) (2 ∷ 9 ∷ 1 ∷ []) ≡ false → lookup j two_handles.entries ≡ none
two_listed j h = ground arith

frees_drain_example : count (run (map frees (2 ∷ 9 ∷ 1 ∷ [])) two_handles) ≡ 0
frees_drain_example = frees_drain (2 ∷ 9 ∷ 1 ∷ []) two_handles two_handles-Inv two_listed
