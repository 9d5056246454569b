-- ===== src/Base/Int.antt =====
-- Signed numbers.
use Prim.Native.Nat.{ℕ}

-- `negsuc n` is -(n + 1).
pub data ℤ : Type 0 where
  pos : ℕ → ℤ
  negsuc : ℕ → ℤ

abbrev pub IsNeg : ℤ → Type 0
IsNeg (pos n) = ⊥
IsNeg (negsuc n) = Unit {0}
