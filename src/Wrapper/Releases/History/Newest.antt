-- ===== src/Wrapper/Releases/History/Newest.antt =====
-- HistoryRelease of pkg/wrapper/release_actions.go: the order of the result, and what it holds.
use helm_c_sdk.Base.{
  ℕ, zero, suc, ◌-◌, ◌<◌, ◌≡◌, refl, ap, sym, ◌∙◌, true, false, List, [], ◌∷◌, ◌++◌, arith, ltb,
  length, drop, if◌then◌else◌, Bool-cases, inl, inr,
}
use mathlib.Core.Path.{subst}
use mathlib.Core.List.{Perm}
use mathlib.Core.List.Perm
use helm_c_sdk.Base.Int.{ℤ, pos, negsuc}
use helm_c_sdk.Wrapper.Summaries.{ReleaseSummary}
use helm_c_sdk.Wrapper.Releases.History.{ltz, insert_summary, sort_summaries, newest, window}

-- No revision of the list is less than this one.
abbrev pub Below : ReleaseSummary → List ReleaseSummary → Type 0
Below s [] = Unit {0}
Below s (t ∷ ts) = (ltz t.revision s.revision ≡ false) × Below s ts

abbrev pub Ascending : List ReleaseSummary → Type 0
Ascending [] = Unit {0}
Ascending (s ∷ ss) = Below s ss × Ascending ss

ltz_trans : (a b c : ℤ) → ltz b a ≡ false → ltz c b ≡ false → ltz c a ≡ false
ltz_trans (pos a) (pos b) (pos c) h k = ground arith
ltz_trans (pos a) (pos b) (negsuc c) h k = ground arith
ltz_trans (pos a) (negsuc b) c h k = ground arith
ltz_trans (negsuc a) b (pos c) h k = refl
ltz_trans (negsuc a) (pos b) (negsuc c) h k = ground arith
ltz_trans (negsuc a) (negsuc b) (negsuc c) h k = ground arith

ltz_asym : (a b : ℤ) → ltz a b ≡ true → ltz b a ≡ false
ltz_asym (pos a) (pos b) h = ground arith
ltz_asym (pos a) (negsuc b) h = ground arith
ltz_asym (negsuc a) (pos b) h = refl
ltz_asym (negsuc a) (negsuc b) h = ground arith

Below-trans :
    (s t : ReleaseSummary) (ts : List ReleaseSummary)
    → ltz t.revision s.revision ≡ false
    → Below t ts
    → Below s ts
Below-trans s t [] h b = tt
Below-trans s t (u ∷ us) h b =
    (ltz_trans s.revision t.revision u.revision h b.0, Below-trans s t us h b.1)

Below-insert :
    (s t : ReleaseSummary) (ts : List ReleaseSummary)
    → ltz t.revision s.revision ≡ false
    → Below s ts
    → Below s (insert_summary t ts)
unfolding insert_summary
Below-insert s t [] h b = (h, tt)
Below-insert s t (u ∷ us) h b = elim (Bool-cases (ltz u.revision t.revision)) [
  | inl less ↦ rw less (b.0, Below-insert s t us h b.1)
  | inr more ↦ rw more (h, b)
]

Ascending-insert :
    (s : ReleaseSummary) (ss : List ReleaseSummary) → Ascending ss → Ascending (insert_summary s ss)
unfolding insert_summary
Ascending-insert s [] a = (tt, tt)
Ascending-insert s (t ∷ ts) a = elim (Bool-cases (ltz t.revision s.revision)) [
  | inl less ↦
      rw less
        (Below-insert t s ts (ltz_asym t.revision s.revision less) a.0, Ascending-insert s ts a.1)
  | inr more ↦ rw more ((more, Below-trans s t ts more a.0), a)
]

Ascending-sort : (ss : List ReleaseSummary) → Ascending (sort_summaries ss)
unfolding sort_summaries
Ascending-sort [] = tt
Ascending-sort (s ∷ ss) = Ascending-insert s (sort_summaries ss) (Ascending-sort ss)

insert-perm : (s : ReleaseSummary) (ss : List ReleaseSummary) → Perm (insert_summary s ss) (s ∷ ss)
unfolding insert_summary
insert-perm s [] = Perm.refl (s ∷ [])
insert-perm s (t ∷ ts) = elim (Bool-cases (ltz t.revision s.revision)) [
  | inl less ↦ rw less (Perm.trans (Perm.cons t (insert-perm s ts)) (Perm.swap s t ts))
  | inr more ↦ rw more (Perm.refl (s ∷ t ∷ ts))
]

sort-perm : (ss : List ReleaseSummary) → Perm (sort_summaries ss) ss
unfolding sort_summaries
sort-perm [] = Perm.refl []
sort-perm (s ∷ ss) = Perm.trans (insert-perm s (sort_summaries ss)) (Perm.cons s (sort-perm ss))

length-insert :
    (s : ReleaseSummary) (ss : List ReleaseSummary) → length (insert_summary s ss) ≡ suc (length ss)
unfolding insert_summary
length-insert s [] = refl
length-insert s (t ∷ ts) = elim (Bool-cases (ltz t.revision s.revision)) [
  | inl less ↦ rw less (omega (arith, length-insert s ts))
  | inr more ↦ rw more refl
]

length-sort : (ss : List ReleaseSummary) → length (sort_summaries ss) ≡ length ss
unfolding sort_summaries
length-sort [] = refl
length-sort (s ∷ ss) = omega (arith, length-insert s (sort_summaries ss), length-sort ss)

-- xs[:n]
abbrev pub first : ℕ → List ReleaseSummary → List ReleaseSummary
first zero xs = []
first (suc n) [] = []
first (suc n) (x ∷ xs) = x ∷ first n xs

first-append-drop : (n : ℕ) (xs : List ReleaseSummary) → first n xs ++ drop n xs ≡ xs
first-append-drop zero xs = refl
first-append-drop (suc n) [] = refl
first-append-drop (suc n) (x ∷ xs) = ap (◌∷◌ x) (first-append-drop n xs)

length-drop_lem : (n : ℕ) (xs : List ReleaseSummary) → length (drop n xs) ≡ length xs - n
length-drop_lem zero xs = omega arith
length-drop_lem (suc n) [] = omega arith
length-drop_lem (suc n) (x ∷ xs) = omega (arith, length-drop_lem n xs)

-- The part of the sorted summaries that HistoryRelease leaves out.
abbrev pub older : ℕ → List ReleaseSummary → List ReleaseSummary
older max sorted = if ltb max (length sorted) then first (length sorted - max) sorted else []

cut :
    (max : ℕ) (sorted : List ReleaseSummary)
    → 0 < max
    → (older max sorted ++ newest (pos max) sorted ≡ sorted)
      × (length (newest (pos max) sorted)
          ≡ (if ltb max (length sorted) then max else length sorted))
cut max sorted h =
    let positive : ltb 0 max ≡ true = ground arith in
    elim (Bool-cases (ltb max (length sorted))) [
      | inl more ↦
          rw (positive, more)
            (
              first-append-drop (length sorted - max) sorted,
              ground (arith, length-drop_lem (length sorted - max) sorted),
            )
      | inr fits ↦ rw (positive, fits) (refl, refl)
    ]

-- With a maximum, the summaries that are left out followed by the summaries that are kept are all of
-- the summaries, in ascending order of revision, and the smaller of the maximum and the number of
-- summaries are kept: these are the newest revisions.
pub history_newest :
    (max : ℕ) (ss : List ReleaseSummary)
    → 0 < max
    → let kept = window (pos max) ss in
      let left_out = older max (sort_summaries ss) in
      Perm (left_out ++ kept) ss
      × Ascending (left_out ++ kept)
      × (length kept ≡ (if ltb max (length ss) then max else length ss))
unfolding window
history_newest max ss h =
    let (joined, size) = cut max (sort_summaries ss) h in
    (
      subst (λ l. Perm l ss) (sym joined) (sort-perm ss),
      subst Ascending (sym joined) (Ascending-sort ss),
      size ∙ ap (λ n. if ltb max n then max else n) (length-sort ss),
    )

-- Without one, the result is all of the summaries in ascending order of revision.
pub history_whole :
    (max : ℤ) (ss : List ReleaseSummary)
    → ltz (pos 0) max ≡ false
    → Perm (window max ss) ss × Ascending (window max ss)
unfolding window
history_whole (negsuc n) ss h = (sort-perm ss, Ascending-sort ss)
history_whole (pos n) ss h = rw h (sort-perm ss, Ascending-sort ss)
