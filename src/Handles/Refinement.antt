-- ===== src/Handles/Refinement.antt =====
-- internal/handles/handles.go: the registry as its callers see it, by the answers of its methods.
use mathlib.Core.Path.{ap₂}
use helm_c_sdk.Base.{
  ℕ, ◌+◌, ◌-◌, ◌%◌, ◌<◌, ◌≡◌, refl, sym, Option, none, some, List, [], ◌∷◌, arith, ◌==◌,
  if◌then◌else◌, Option-cases, Bool-cases, inl, inr, length,
}
use helm_c_sdk.Base.Assoc.{
  lookup, erase, lookup-insert, lookup-erase, length-insert_new, length-erase, lookup_above,
}
use helm_c_sdk.Errors.{Err}
use helm_c_sdk.Result.{Result, ok, err}
use helm_c_sdk.Handles.{
  HandleType, Entry, Registry, Call, puts, gets, frees, frees_typed, counts, u64_mod, new_registry,
  put, get, free, free_typed, count, step, puts_in, err_invalid_handle, err_wrong_type,
}
use helm_c_sdk.Handles.Invariant.{Inv, new_registry-Inv, step-Inv, puts_rest}

-- What a call answers: a handle, an object or an error, an error or nil, a number.
pub data Answer (A : Type 0) : Type 0 where
  handle : ℕ → Answer A
  object : Result A → Answer A
  status : Option Err → Answer A
  number : ℕ → Answer A

module _ {A : Type 0} where
  unfoldable pub answer : Call A → Registry A → Answer A
  answer (puts t obj) r = handle (put t obj r).0
  answer (gets id t) r = object (get id t r)
  answer (frees id) r = status (free id r).0
  answer (frees_typed id t) r = status (free_typed id t r).0
  answer counts r = number (count r)

  unfoldable pub answers : List (Call A) → Registry A → List (Answer A)
  answers [] r = []
  answers (c ∷ cs) r = answer c r ∷ answers cs (step c r)

-- What a caller may rely on: which handles are live, as a function; how many were ever issued, the
-- last of them being the greatest; and how many are live.
pub record Handles (A : Type 0) : Type 0 where
  pub live : ℕ → Option (Entry A)
  pub issued : ℕ
  pub size : ℕ

module _ {A : Type 0} where
  abbrev pub no_handles : Handles A
  no_handles = record { live = λ id. none; issued = 0; size = 0 }

  abbrev update : ℕ → Option (Entry A) → (ℕ → Option (Entry A)) → ℕ → Option (Entry A)
  update id e f j = if id == j then e else f j

  abbrev drop_handle : ℕ → Handles A → Handles A
  drop_handle id s = record s { live = update id none s.live; size = s.size - 1 }

  abbrev refusal : ℕ → HandleType → Option (Entry A) → Option Err
  refusal id t none = some (err_invalid_handle id)
  refusal id t (some e) = if e.typ == t then none else some (err_wrong_type id e.typ t)

  abbrev held : ℕ → HandleType → Option (Entry A) → Result A
  held id t none = err (err_invalid_handle id)
  held id t (some e) = if e.typ == t then ok e.obj else err (err_wrong_type id e.typ t)

  abbrev gone : ℕ → Option (Entry A) → Option Err
  gone id none = some (err_invalid_handle id)
  gone id (some e) = none

  abbrev unless : Option Err → Handles A → Handles A → Handles A
  unless none s s' = s'
  unless (some e) s s' = s

  unfoldable pub allowed : Call A → Handles A → Answer A
  allowed (puts t obj) s = handle (s.issued + 1)
  allowed (gets id t) s = object (held id t (s.live id))
  allowed (frees id) s = status (gone id (s.live id))
  allowed (frees_typed id t) s = status (refusal id t (s.live id))
  allowed counts s = number s.size

  unfoldable pub next : Call A → Handles A → Handles A
  next (puts t obj) s = record {
    live = update (s.issued + 1) (some (record { typ = t; obj = obj })) s.live;
    issued = s.issued + 1;
    size = s.size + 1;
  }
  next (gets id t) s = s
  next (frees id) s = unless (gone id (s.live id)) s (drop_handle id s)
  next (frees_typed id t) s = unless (refusal id t (s.live id)) s (drop_handle id s)
  next counts s = s

  unfoldable pub all_allowed : List (Call A) → Handles A → List (Answer A)
  all_allowed [] s = []
  all_allowed (c ∷ cs) s = allowed c s ∷ all_allowed cs (next c s)

-- The map holds what is live, the counter the number of handles issued.
pub record Refines {A : Type 0} (r : Registry A) (s : Handles A) : Type 0 where
  pub shows : (id : ℕ) → lookup id r.entries ≡ s.live id
  pub issued : r.next_id ≡ s.issued
  pub size : length r.entries ≡ s.size

module _ {A : Type 0} where
  answer-allowed :
      (c : Call A) (r : Registry A) (s : Handles A)
      → r.next_id + puts_in (c ∷ []) < u64_mod
      → Refines r s
      → answer c r ≡ allowed c s
  unfolding answer allowed put get free free_typed count
  answer-allowed (puts t obj) r s h v = ground (arith, v.issued)
  answer-allowed (gets id t) r s h v = ground (arith, v.shows id)
  answer-allowed (frees id) r s h v = ground (arith, v.shows id)
  answer-allowed (frees_typed id t) r s h v = ground (arith, v.shows id)
  answer-allowed counts r s h v = ground (arith, v.size)

  drop-Refines :
      (id : ℕ) (r : Registry A) (s : Handles A) (x : Entry A)
      → Inv r
      → Refines r s
      → lookup id r.entries ≡ some x
      → Refines (record r { entries = erase id r.entries }) (drop_handle id s)
  drop-Refines id r s x i v e = record {
    shows = λ j. ground (arith, lookup-erase id j r.entries i.distinct, v.shows j);
    issued = v.issued;
    size = omega (arith, length-erase id r.entries x e, v.size);
  }

  step-Refines :
      (c : Call A) (r : Registry A) (s : Handles A)
      → r.next_id + puts_in (c ∷ []) < u64_mod
      → Inv r
      → Refines r s
      → Refines (step c r) (next c s)
  unfolding step next put free free_typed
  step-Refines (puts t obj) r s h i v =
      let same : (r.next_id + 1) % u64_mod ≡ s.issued + 1 = omega (arith, v.issued) in
      rw same (record {
        shows = λ j. ground (
          arith,
          lookup-insert (s.issued + 1) j (record { typ = t; obj = obj }) r.entries,
          v.shows j,
        );
        issued = refl;
        size = omega (
          arith,
          length-insert_new (s.issued + 1) (record { typ = t; obj = obj }) r.entries
              (lookup_above r.next_id (s.issued + 1) r.entries i.within (omega (arith, v.issued))),
          v.size,
        );
      })
  step-Refines (gets id t) r s h i v = v
  step-Refines (frees id) r s h i v = elim (Option-cases (lookup id r.entries)) [
    | inl e ↦ rw (sym (v.shows id)) (rw (e, step, free) v)
    | inr (x, e) ↦ rw (sym (v.shows id)) (rw (e, step, free) (drop-Refines id r s x i v e))
  ]
  step-Refines (frees_typed id t) r s h i v = elim (Option-cases (lookup id r.entries)) [
    | inl e ↦ rw (sym (v.shows id)) (rw (e, step, free_typed) v)
    | inr (x, e) ↦ elim (Bool-cases (x.typ == t)) [
      | inl same ↦
          rw (sym (v.shows id)) (rw (e, step, free_typed) (rw same (drop-Refines id r s x i v e)))
      | inr other ↦ rw (sym (v.shows id)) (rw (e, step, free_typed) (rw other v))
    ]
  ]
  step-Refines counts r s h i v = v

  run-allowed :
      (cs : List (Call A)) (r : Registry A) (s : Handles A)
      → r.next_id + puts_in cs < u64_mod
      → Inv r
      → Refines r s
      → answers cs r ≡ all_allowed cs s
  unfolding answers all_allowed
  run-allowed [] r s h i v = refl
  run-allowed (c ∷ cs) r s h i v =
      let (now, later) = puts_rest c cs r h in
      ap₂ ◌∷◌ (answer-allowed c r s now v) (
        run-allowed cs (step c r) (next c s) later (step-Inv c r now i)
          (step-Refines c r s now i v))

  -- No client can tell the registry from its specification. Whatever calls the threads make on a new
  -- registry, in whatever order they take the lock, each call answers what the specification allows: a
  -- Put the next number, never one that was given before; a Get and a Free what the function of live
  -- handles says, errors included; a Count the number of live handles. Fewer than 2 ^ 64 handles are
  -- issued.
  pub registry_refines :
      (cs : List (Call A))
      → puts_in cs < u64_mod
      → answers cs new_registry ≡ all_allowed cs no_handles
  registry_refines cs h =
      run-allowed cs new_registry no_handles (omega arith) new_registry-Inv
        (record { shows = λ id. refl; issued = refl; size = refl })
