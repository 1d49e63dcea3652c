-- ===== src/Common/Lists.antt =====
-- Lists as the program uses them: filters and sums over rows, sets made from lists.
use Prim.Native.Nat.{ℕ, zero, suc, ◌+◌}
use mathlib.Core.Path.{◌≡◌, refl}
use mathlib.Core.Bool.{Bool, false, ◌&&◌, ◌||◌}
use mathlib.Core.Logic.{inl, inr}
use mathlib.Core.Option.{Option, none, some}
use mathlib.Core.List.{List, [], ◌∷◌, ◌++◌}
use native.Mathlib.Omega.{arith}
use payment_ledger_api.Common.Tests.{if◌then◌else◌, Comparable, ◌==◌, Bool-cases}

module _ {ℓ} {A : Type ℓ} where
  abbrev pub length : List A → ℕ
  length [] = 0
  length (x ∷ xs) = suc (length xs)

  abbrev pub take : ℕ → List A → List A
  take zero xs = []
  take (suc n) [] = []
  take (suc n) (x ∷ xs) = x ∷ take n xs

  abbrev pub drop : ℕ → List A → List A
  drop zero xs = xs
  drop (suc n) [] = []
  drop (suc n) (x ∷ xs) = drop n xs

  -- `[x for x in xs if test(x)]`
  abbrev pub filter : (A → Bool) → List A → List A
  filter test [] = []
  filter test (x ∷ xs) = if test x then x ∷ filter test xs else filter test xs

  -- `sum(value(x) for x in xs if test(x))`
  abbrev pub sum_where : (A → Bool) → (A → ℕ) → List A → ℕ
  sum_where test value [] = 0
  sum_where test value (x ∷ xs) =
      if test x then value x + sum_where test value xs else sum_where test value xs

  abbrev pub any : (A → Bool) → List A → Bool
  any test [] = false
  any test (x ∷ xs) = test x || any test xs

  -- Every element has the property.
  abbrev pub All {κ} : (A → Type κ) → List A → Type κ
  All P [] = Unit
  All P (x ∷ xs) = P x × All P xs

  pub All-append {κ} : (P : A → Type κ) (xs ys : List A) → All P xs → All P ys → All P (xs ++ ys)
  All-append P [] ys hx hy = hy
  All-append P (x ∷ xs) ys hx hy = (hx.0, All-append P xs ys hx.1 hy)

  pub sum_where-append :
      (test : A → Bool) (value : A → ℕ) (xs ys : List A)
      → sum_where test value (xs ++ ys) ≡ sum_where test value xs + sum_where test value ys
  sum_where-append test value [] ys = omega arith
  sum_where-append test value (x ∷ xs) ys = ground (arith, sum_where-append test value xs ys)

  pub length-append : (xs ys : List A) → length (xs ++ ys) ≡ length xs + length ys
  length-append [] ys = omega arith
  length-append (x ∷ xs) ys = omega (arith, length-append xs ys)

  pub any-append :
      (test : A → Bool) (xs ys : List A) → any test (xs ++ ys) ≡ any test xs || any test ys
  any-append test [] ys = refl
  any-append test (x ∷ xs) ys = ground (arith, any-append test xs ys)

  -- Two tests in one are two filters in turn.
  pub filter-and :
      (p q : A → Bool) (xs : List A) → filter (λ x. p x && q x) xs ≡ filter q (filter p xs)
  filter-and p q [] = refl
  filter-and p q (x ∷ xs) = elim (Bool-cases (p x)) [
    | inl hit ↦ rw (hit, filter-and p q xs)
    | inr miss ↦ rw miss (filter-and p q xs)
  ]

  pub filter-none : (p : A → Bool) (xs : List A) → any p xs ≡ false → filter p xs ≡ []
  filter-none p [] h = refl
  filter-none p (x ∷ xs) h = ground (arith, filter-none p xs)

  pub filter-append :
      (p : A → Bool) (xs ys : List A) → filter p (xs ++ ys) ≡ filter p xs ++ filter p ys
  filter-append p [] ys = refl
  filter-append p (x ∷ xs) ys = elim (Bool-cases (p x)) [
    | inl hit ↦ rw (hit, filter-append p xs ys)
    | inr miss ↦ rw miss (filter-append p xs ys)
  ]

  pub sum_where-eq-zero :
      (test : A → Bool) (value : A → ℕ) (xs : List A)
      → All (λ x. test x ≡ false) xs
      → sum_where test value xs ≡ 0
  sum_where-eq-zero test value [] h = refl
  sum_where-eq-zero test value (x ∷ xs) h = ground (arith, sum_where-eq-zero test value xs h.1)

module _ {ℓ} {A : Type ℓ} ⦃e : Comparable A⦄ where
  -- `x in xs`
  abbrev pub contains : List A → A → Bool
  contains [] a = false
  contains (x ∷ xs) a = x == a || contains xs a

  -- `{x for x in xs}`, in some order.
  abbrev pub to_set : List A → List A
  to_set [] = []
  to_set (x ∷ xs) = let rest = to_set xs in if contains rest x then rest else x ∷ rest

  abbrev pub lookup {κ} : {V : Type κ} → A → List (A × V) → Option V
  lookup k [] = none
  lookup k ((j, v) ∷ m) = if j == k then some v else lookup k m
