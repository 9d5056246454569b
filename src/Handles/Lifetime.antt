-- ===== src/Handles/Lifetime.antt =====
-- internal/handles/handles.go: the life of one handle, from its Put to long after its Free.
use helm_c_sdk.Base.{
  ℕ, ◌+◌, ◌%◌, ◌⊎◌, ◌≤◌, ◌<◌, ◌≡◌, ◌≢◌, Bool, false, ◌&&◌, none, some, List, [], ◌∷◌, arith, ◌==◌,
}
use helm_c_sdk.Base.Assoc.{
  lookup, lookup-insert, lookup-erase_ne, lookup-erase-none, lookup-erase_self, lookup_above,
}
use helm_c_sdk.Result.{ok, err}
use helm_c_sdk.Handles.{
  HandleType, Entry, Registry, Call, puts, gets, frees, frees_typed, counts, u64_mod, put, get,
  free, free_typed, err_invalid_handle, err_wrong_type, step, run, puts_in,
}
use helm_c_sdk.Handles.Invariant.{Inv, put_id, next_id-step, puts_rest}

-- The call removes the entry `id` if that entry is a `t`.
abbrev pub removes : {A : Type 0} → ℕ → HandleType → Call A → Bool
removes id t (frees j) = j == id
removes id t (frees_typed j u) = (j == id) && (u == t)
removes id t _ = false

-- None of the calls removes it.
abbrev pub Spares : {A : Type 0} → ℕ → HandleType → List (Call A) → Type 0
Spares id t [] = Unit {0}
Spares id t (c ∷ cs) = (removes id t c ≡ false) × Spares id t cs

module _ {A : Type 0} where
  -- An id that was issued and is gone is not there after one more call.
  step_gone :
      (c : Call A) (r : Registry A) (id : ℕ)
      → r.next_id + puts_in (c ∷ []) < u64_mod
      → id ≤ r.next_id
      → lookup id r.entries ≡ none
      → lookup id (step c r).entries ≡ none
  unfolding step put free free_typed
  step_gone (puts t obj) r id h le gone = rw lookup-insert (ground (arith, put_id t obj r))
  step_gone (gets j t) r id h le gone = gone
  step_gone (frees j) r id h le gone = ground (arith, lookup-erase-none j id r.entries)
  step_gone (frees_typed j t) r id h le gone = ground (arith, lookup-erase-none j id r.entries)
  step_gone counts r id h le gone = gone

  step_live :
      (c : Call A) (r : Registry A) (id : ℕ) (e : Entry A)
      → r.next_id + puts_in (c ∷ []) < u64_mod
      → id ≤ r.next_id
      → removes id e.typ c ≡ false
      → lookup id r.entries ≡ some e
      → lookup id (step c r).entries ≡ some e
  unfolding step put free free_typed
  step_live (puts t obj) r id e h le spared live = rw lookup-insert (ground (arith, put_id t obj r))
  step_live (gets j t) r id e h le spared live = live
  step_live (frees j) r id e h le spared live = ground (arith, lookup-erase_ne j id r.entries)
  step_live (frees_typed j t) r id e h le spared live =
      ground (arith, lookup-erase_ne j id r.entries)
  step_live counts r id e h le spared live = live

  run_gone :
      (cs : List (Call A)) (r : Registry A) (id : ℕ)
      → r.next_id + puts_in cs < u64_mod
      → id ≤ r.next_id
      → lookup id r.entries ≡ none
      → lookup id (run cs r).entries ≡ none
  unfolding run
  run_gone [] r id h le gone = gone
  run_gone (c ∷ cs) r id h le gone =
      let (now, later) = puts_rest c cs r h in
      run_gone cs (step c r) id later (omega (arith, next_id-step c r now))
        (step_gone c r id now le gone)

  run_live :
      (cs : List (Call A)) (r : Registry A) (id : ℕ) (e : Entry A)
      → r.next_id + puts_in cs < u64_mod
      → id ≤ r.next_id
      → Spares id e.typ cs
      → lookup id r.entries ≡ some e
      → lookup id (run cs r).entries ≡ some e
  unfolding run
  run_live [] r id e h le s live = live
  run_live (c ∷ cs) r id e h le s live =
      let (now, later) = puts_rest c cs r h in
      run_live cs (step c r) id e later (omega (arith, next_id-step c r now)) s.1
        (step_live c r id e now le s.0 live)

  -- What every call says of an id that is not there.
  abbrev pub IsDead : ℕ → Registry A → Type 0
  IsDead id r =
      ((t : HandleType) → get id t r ≡ err (err_invalid_handle id))
      × (free id r ≡ (some (err_invalid_handle id), r))
      × ((t : HandleType) → free_typed id t r ≡ (some (err_invalid_handle id), r))

  gone-IsDead : (id : ℕ) (r : Registry A) → lookup id r.entries ≡ none → IsDead id r
  unfolding get free free_typed
  gone-IsDead id r e = (λ t. rw (e, get), rw (e, free), λ t. rw (e, free_typed))

  free_gone :
      (id : ℕ) (t : HandleType) (r r' : Registry A)
      → Inv r
      → (free id r ≡ (none, r')) ⊎ (free_typed id t r ≡ (none, r'))
      → (lookup id r'.entries ≡ none) × (r'.next_id ≡ r.next_id) × (id ≤ r.next_id)
  unfolding free free_typed
  free_gone id t r r' v h = ground (
    arith,
    lookup-erase_self id r.entries v.distinct,
    lookup_above r.next_id id r.entries v.within,
  )

  -- A handle that was freed, by Free or by FreeTyped, is dead for good: after any further calls of
  -- any threads, Get, Free and FreeTyped of it report the invalid handle and change nothing. The
  -- registry satisfies its invariant, and fewer than 2 ^ 64 handles are issued in all.
  pub freed-IsDead :
      (id : ℕ) (t : HandleType) (r r' : Registry A) (cs : List (Call A))
      → Inv r
      → r.next_id + puts_in cs < u64_mod
      → (free id r ≡ (none, r')) ⊎ (free_typed id t r ≡ (none, r'))
      → IsDead id (run cs r')
  freed-IsDead id t r r' cs v h freed =
      let (gone, same, le) = free_gone id t r r' v freed in
      gone-IsDead id (run cs r') (run_gone cs r' id (omega arith) (omega arith) gone)

  put_entry :
      (t : HandleType) (obj : A) (r : Registry A)
      → r.next_id + 1 < u64_mod
      → lookup (r.next_id + 1) (put t obj r).1.entries ≡ some (record { typ = t; obj = obj })
  unfolding put
  put_entry t obj r h =
      let same : (r.next_id + 1) % u64_mod ≡ r.next_id + 1 = omega arith in
      rw (same, lookup-insert) (ground arith)

  get_entry :
      (id : ℕ) (t u : HandleType) (obj : A) (r : Registry A)
      → lookup id r.entries ≡ some (record { typ = t; obj = obj })
      → u ≢ t
      → (get id t r ≡ ok obj) × (get id u r ≡ err (err_wrong_type id t u))
  unfolding get
  get_entry id t u obj r e h = ground arith

  -- The object put in under a fresh id is what Get returns for that id and its type, after any
  -- further calls none of which frees it, and any other type is refused with the wrong-type error.
  -- The id is not 0 and was not in use. The registry satisfies its invariant, and fewer than 2 ^ 64
  -- handles are issued in all.
  pub put_lives :
      (t u : HandleType) (obj : A) (r : Registry A) (cs : List (Call A))
      → Inv r
      → r.next_id + 1 + puts_in cs < u64_mod
      → Spares (put t obj r).0 t cs
      → u ≢ t
      → let (id, r') = put t obj r in
        (0 < id)
        × (lookup id r.entries ≡ none)
        × (get id t (run cs r') ≡ ok obj)
        × (get id u (run cs r') ≡ err (err_wrong_type id t u))
  put_lives t u obj r cs v h s ne =
      let same = put_id t obj r (omega arith) in
      let next : (put t obj r).1.next_id ≡ r.next_id + 1 = unfold put in same in
      let spared = rw same at s in
      let live =
        run_live cs (put t obj r).1 (r.next_id + 1) (record { typ = t; obj = obj }) (omega arith)
          (omega arith) spared (put_entry t obj r (omega arith)) in
      let (hit, miss) = get_entry (r.next_id + 1) t u obj (run cs (put t obj r).1) live ne in
      rw same (omega arith, lookup_above r.next_id _ r.entries v.within (omega arith), hit, miss)
