-- ===== src/Prelude/Descent.antt =====
-- A relation whose steps lower a number has no endless sequence of steps.
use mathlib.Core.WellFounded.{Acc}
use Prim.Native.Nat.{ℕ, zero, suc, ◌+◌, ◌<◌}
use native.Mathlib.Omega.{arith}

module _ {S : Type 0} (After : S → S → Type 0) (P : S → Type 0) (rank : S → ℕ)
    (lowers : (s t : S) → P s → After t s → P t × (rank t < rank s)) where
  below-Acc : (k : ℕ) (s : S) → P s → rank s < k → Acc After s
  below-Acc zero s p h = absurd (omega arith)
  below-Acc (suc k) s p h =
      Acc.intro s (λ t st. let (q, less) = lowers s t p st in below-Acc k t q (omega arith))

  -- If `P` holds of `s` and is kept by every step, and every step lowers the rank.
  pub descent-Acc : (s : S) → P s → Acc After s
  descent-Acc s p = below-Acc (rank s + 1) s p (omega arith)
