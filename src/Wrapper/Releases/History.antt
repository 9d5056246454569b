-- ===== src/Wrapper/Releases/History.antt =====
-- HistoryRelease of pkg/wrapper/release_actions.go: the order and the number of the revisions.
pub mod Newest
use helm_c_sdk.Base.{
  ℕ, ◌-◌, Bool, true, false, ◌&&◌, List, [], ◌∷◌, ltb, length, drop, if◌then◌else◌,
}
use helm_c_sdk.Base.Int.{ℤ, pos, negsuc}
use helm_c_sdk.Wrapper.Summaries.{ReleaseSummary}

-- `<` on int
abbrev pub ltz : ℤ → ℤ → Bool
ltz (pos a) (pos b) = ltb a b
ltz (pos a) (negsuc b) = false
ltz (negsuc a) (pos b) = true
ltz (negsuc a) (negsuc b) = ltb b a

unfoldable pub insert_summary : ReleaseSummary → List ReleaseSummary → List ReleaseSummary
insert_summary s [] = s ∷ []
insert_summary s (t ∷ ts) =
    let rest = insert_summary s ts in if ltz t.revision s.revision then t ∷ rest else s ∷ t ∷ ts

-- sort.Slice by the revision. Summaries of one revision keep their order here, which sort.Slice does
-- not promise.
unfoldable pub sort_summaries : List ReleaseSummary → List ReleaseSummary
sort_summaries [] = []
sort_summaries (s ∷ ss) = insert_summary s (sort_summaries ss)

-- The slice that HistoryRelease keeps of the sorted summaries.
abbrev pub newest : ℤ → List ReleaseSummary → List ReleaseSummary
newest (pos max) ss = if ltb 0 max && ltb max (length ss) then drop (length ss - max) ss else ss
newest (negsuc n) ss = ss

unfoldable pub window : ℤ → List ReleaseSummary → List ReleaseSummary
window max ss = newest max (sort_summaries ss)
