-- ===== src/Base/Bytes.antt =====
-- Strings of bytes: how they compare.
use Prim.Native.Nat.{ℕ}
use mathlib.Core.Path.{◌≡◌, refl, ap}
use mathlib.Core.Bool.{Bool, true, false, ◌&&◌}
use mathlib.Core.List.{List, [], ◌∷◌}
use mathlib.Core.Logic.{inl, inr}
use ctgpr_msc.Base.Tests.{◌==◌, ==_iff, Bool-cases}

-- `strcmp` and `memcmp` that find no difference.
unfoldable pub eq_bytes : List ℕ → List ℕ → Bool
eq_bytes [] [] = true
eq_bytes [] (y ∷ ys) = false
eq_bytes (x ∷ xs) [] = false
eq_bytes (x ∷ xs) (y ∷ ys) = (x == y) && eq_bytes xs ys

pub eq_bytes→≡ : (xs ys : List ℕ) → eq_bytes xs ys ≡ true → xs ≡ ys
unfolding eq_bytes
eq_bytes→≡ [] [] h = refl
eq_bytes→≡ [] (y ∷ ys) h = absurd (cc h)
eq_bytes→≡ (x ∷ xs) [] h = absurd (cc h)
eq_bytes→≡ (x ∷ xs) (y ∷ ys) h = elim (Bool-cases (x == y)) [
  | inl same ↦ rw ((==_iff x y).0 same) (ap (λ t. y ∷ t) (eq_bytes→≡ xs ys (rw same at h)))
  | inr other ↦ absurd (cc (rw other at h))
]
