-- ===== src/Process/Frame/Sparing.antt =====
-- Keeping one configuration as a relation between states, for code of which no postcondition is asked.
use helm_c_sdk.Base.{ℕ, suc, ◌≡◌, refl, ◌∙◌, ◌<◌, arith}
use helm_c_sdk.Base.Assoc.{lookup, insert, lookup-insert}
use helm_c_sdk.Go.{Outcome, returns, fails, panics, Go}
use helm_c_sdk.Sdk.Structs.{Types, Configuration}
use helm_c_sdk.Process.{Process}
use helm_c_sdk.Process.Frame.{Spares, Any, Post}
use helm_c_sdk.Process.Respects.{Frame, Respects}

-- A configuration that is there stays what it is.
abbrev pub Kept : {t : Types} → ℕ → Process t → Process t → Type 0
Kept ref p q =
    ref < p.next_ref
    → (lookup ref q.configurations ≡ lookup ref p.configurations) × (ref < q.next_ref)

pub alloc-Kept :
    {t : Types} (ref : ℕ) (p : Process t) (c : Configuration t)
    → Kept ref p (record p {
      configurations = insert p.next_ref c p.configurations;
      next_ref = suc p.next_ref;
    })
alloc-Kept ref p c h = (rw lookup-insert (ground arith), omega arith)

pub trans-Kept :
    {t : Types} (ref : ℕ) (p q s : Process t) → Kept ref p q → Kept ref q s → Kept ref p s
trans-Kept ref p q s h k lt =
    let (same, next) = h lt in let (same', next') = k next in (same' ∙ same, next')

pub record-Kept : (ref n : ℕ) → ref < n → ref < suc n
record-Kept ref n h = omega arith

abbrev pub sparing : {t : Types} → ℕ → Frame t
sparing ref = record {
  Rel = Kept ref;
  here = λ p h. (refl, h);
  chain = trans-Kept ref;
  outwards = λ p o h. (refl, h);
  allocated = alloc-Kept ref;
  recorded = λ p c h. (refl, record-Kept ref p.next_ref h);
}

all_outcomes : {A : Type 0} (r : Outcome A) → Post Any r
all_outcomes (returns a) = tt
all_outcomes (fails e) = tt
all_outcomes (panics m) = tt

pub spared :
    {t : Types} {A : Type 0} (ref : ℕ) (m : Go (Process t) A)
    → Respects (sparing ref) m
    → Spares ref Any m
spared ref m k = record {
  at = λ p h. let (same, next) = k.at p h in (same, next, all_outcomes (m p).0);
}
