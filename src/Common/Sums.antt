-- ===== src/Common/Sums.antt =====
-- Sums over the selected rows of a list, through the operations that make such lists.
use Prim.Native.Nat.{ℕ, ◌*◌}
use mathlib.Core.Path.{◌≡◌, refl}
use mathlib.Core.Logic.{inl, inr}
use mathlib.Core.Bool.{Bool, ◌&&◌}
use mathlib.Core.List.{List, [], ◌∷◌, map}
use native.Mathlib.Omega.{arith}
use payment_ledger_api.Common.Tests.{Bool-cases}
use payment_ledger_api.Common.Lists.{filter, sum_where}

module _ {ℓ} {A : Type ℓ} (test : A → Bool) (value : A → ℕ) where
  pub sum_where-filter :
      (keep : A → Bool) (xs : List A)
      → sum_where test value (filter keep xs) ≡ sum_where (λ x. keep x && test x) value xs
  sum_where-filter keep [] = refl
  sum_where-filter keep (x ∷ xs) = elim (Bool-cases (keep x)) [
    | inl hit ↦ rw hit (ground (arith, sum_where-filter keep xs))
    | inr miss ↦ rw miss (sum_where-filter keep xs)
  ]

  pub sum_where-map {κ} :
      {B : Type κ} (f : B → A) (ys : List B)
      → sum_where test value (map f ys) ≡ sum_where (λ y. test (f y)) (λ y. value (f y)) ys
  sum_where-map f [] = refl
  sum_where-map f (y ∷ ys) = ground (arith, sum_where-map f ys)

  -- A value that is the same for all selected rows comes out of the sum as a factor.
  pub sum_where-scale :
      (k : ℕ) (xs : List A) → sum_where test (λ x. value x * k) xs ≡ sum_where test value xs * k
  sum_where-scale k [] = omega arith
  sum_where-scale k (x ∷ xs) = elim (Bool-cases (test x)) [
    | inl hit ↦ rw hit (omega (arith, sum_where-scale k xs))
    | inr miss ↦ rw miss (sum_where-scale k xs)
  ]
