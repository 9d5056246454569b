-- ===== src/Handles/Invariant.antt =====
-- internal/handles/handles.go: the ids that are in use, and what every step does to one id.
use helm_c_sdk.Base.{
  ℕ, ◌+◌, ◌%◌, ◌<◌, ◌≡◌, List, [], ◌∷◌, arith, ◌==◌, Option-cases, inl, inr, Bool-cases,
}
use helm_c_sdk.Base.Assoc.{
  lookup, erase, IsMap, Within, insert-IsMap, erase-IsMap, Within-mono, insert-Within, erase-Within,
}
use helm_c_sdk.Handles.{
  HandleType, Registry, Call, puts, gets, frees, frees_typed, counts, u64_mod, new_registry, put,
  free, free_typed, step, run, puts_in,
}

-- The ids in use are 1 .. next_id, none of them twice.
pub record Inv {A : Type 0} (r : Registry A) : Type 0 where
  pub within : Within r.next_id r.entries
  pub distinct : IsMap r.entries
  pub small : r.next_id < u64_mod

module _ {A : Type 0} where
  pub new_registry-Inv : Inv (new_registry {A = A})
  new_registry-Inv = record { within = tt; distinct = tt; small = omega arith }

  -- While the counter has not run out, the id is the next number.
  pub put_id :
      (t : HandleType) (obj : A) (r : Registry A)
      → r.next_id + 1 < u64_mod
      → (put t obj r).0 ≡ r.next_id + 1
  unfolding put
  put_id t obj r h = omega arith

  pub put-Inv :
      (t : HandleType) (obj : A) (r : Registry A)
      → r.next_id + 1 < u64_mod
      → Inv r
      → Inv (put t obj r).1
  unfolding put
  put-Inv t obj r h v =
      let same : (r.next_id + 1) % u64_mod ≡ r.next_id + 1 = omega arith in
      rw same (record {
        within =
            insert-Within (r.next_id + 1) (r.next_id + 1) _ r.entries (omega arith) (omega arith)
              (Within-mono r.next_id (r.next_id + 1) r.entries (omega arith) v.within);
        distinct = insert-IsMap (r.next_id + 1) _ r.entries v.distinct;
        small = h;
      })

  pub erase-Inv :
      (id : ℕ) (r : Registry A) → Inv r → Inv (record r { entries = erase id r.entries })
  erase-Inv id r v = record {
    within = erase-Within r.next_id id r.entries v.within;
    distinct = erase-IsMap id r.entries v.distinct;
    small = v.small;
  }

  pub free-Inv : (id : ℕ) (r : Registry A) → Inv r → Inv (free id r).1
  unfolding free
  free-Inv id r v = elim (Option-cases (lookup id r.entries)) [
    | inl e ↦ rw (e, free) v
    | inr (x, e) ↦ rw (e, free) (erase-Inv id r v)
  ]

  pub free_typed-Inv :
      (id : ℕ) (t : HandleType) (r : Registry A) → Inv r → Inv (free_typed id t r).1
  unfolding free_typed
  free_typed-Inv id t r v = elim (Option-cases (lookup id r.entries)) [
    | inl e ↦ rw (e, free_typed) v
    | inr (x, e) ↦ elim (Bool-cases (x.typ == t)) [
      | inl same ↦ rw (e, free_typed, same) (erase-Inv id r v)
      | inr other ↦ rw (e, free_typed, other) v
    ]
  ]

  pub step-Inv :
      (c : Call A) (r : Registry A)
      → r.next_id + puts_in (c ∷ []) < u64_mod
      → Inv r
      → Inv (step c r)
  unfolding step
  step-Inv (puts t obj) r h v = put-Inv t obj r (omega arith) v
  step-Inv (gets id t) r h v = v
  step-Inv (frees id) r h v = free-Inv id r v
  step-Inv (frees_typed id t) r h v = free_typed-Inv id t r v
  step-Inv counts r h v = v

  -- Only Put moves the counter.
  pub next_id-step :
      (c : Call A) (r : Registry A)
      → r.next_id + puts_in (c ∷ []) < u64_mod
      → (step c r).next_id ≡ r.next_id + puts_in (c ∷ [])
  unfolding step put free free_typed
  next_id-step (puts t obj) r h = omega arith
  next_id-step (gets id t) r h = omega arith
  next_id-step (frees id) r h = ground arith
  next_id-step (frees_typed id t) r h = ground arith
  next_id-step counts r h = omega arith

  pub puts_in-cons :
      (c : Call A) (cs : List (Call A)) → puts_in (c ∷ cs) ≡ puts_in (c ∷ []) + puts_in cs
  puts_in-cons (puts t obj) cs = omega arith
  puts_in-cons (gets id t) cs = omega arith
  puts_in-cons (frees id) cs = omega arith
  puts_in-cons (frees_typed id t) cs = omega arith
  puts_in-cons counts cs = omega arith

  -- The bound on the number of Puts carries over to the rest of a run.
  pub puts_rest :
      (c : Call A) (cs : List (Call A)) (r : Registry A)
      → r.next_id + puts_in (c ∷ cs) < u64_mod
      → (r.next_id + puts_in (c ∷ []) < u64_mod) × ((step c r).next_id + puts_in cs < u64_mod)
  puts_rest c cs r h = (
    omega (arith, puts_in-cons c cs),
    omega (arith, puts_in-cons c cs, next_id-step c r (omega (arith, puts_in-cons c cs))),
  )

  -- The calls of any number of threads, in the order in which they take the lock, leave a registry
  -- whose ids are distinct and lie in 1 .. nextID, as long as fewer than 2 ^ 64 handles are issued.
  pub run-Inv :
      (cs : List (Call A)) (r : Registry A)
      → r.next_id + puts_in cs < u64_mod
      → Inv r
      → Inv (run cs r)
  unfolding run
  run-Inv [] r h v = v
  run-Inv (c ∷ cs) r h v =
      let (now, later) = puts_rest c cs r h in run-Inv cs (step c r) later (step-Inv c r now v)
