-- ===== src/Common/Pages.antt =====
-- What `ORDER BY` and paging give: all the rows, in order, each once.
use Prim.Native.Nat.{ℕ, zero, suc, ◌+◌, ◌*◌, ◌≤◌}
use mathlib.Core.Path.{◌≡◌, refl, sym, ap, ◌∙◌}
use mathlib.Core.Bool.{Bool, true, false}
use mathlib.Core.Logic.{inl, inr}
use mathlib.Core.List.{List, [], ◌∷◌, ◌++◌}
use native.Mathlib.Omega.{arith}
use payment_ledger_api.Common.Tests.{if◌then◌else◌, Bool-cases}
use payment_ledger_api.Common.Lists.{take, drop, length, filter}
use payment_ledger_api.Common.Order.{insert_by, order_by, page}

next : (n m : ℕ) → suc (n + m) ≡ suc n + m
next n m = omega arith

no_pages : (limit : ℕ) → 0 * limit ≡ 0
no_pages limit = omega arith

one_page : (n limit : ℕ) → suc n * limit ≡ limit + n * limit
one_page n limit = omega arith

module _ {ℓ} {A : Type ℓ} where
  -- How many elements pass a test.
  abbrev pub count : (A → Bool) → List A → ℕ
  count test xs = length (filter test xs)

  -- Two lists with the same elements, each as often: no test tells them apart.
  pub record IsSameMultiset (xs ys : List A) : Type ℓ where
    pub at : (test : A → Bool) → count test xs ≡ count test ys

  -- Each element may stand in front of the next.
  abbrev pub IsChain : (A → A → Bool) → List A → Type 0
  IsChain before [] = Unit
  IsChain before (x ∷ []) = Unit
  IsChain before (x ∷ y ∷ ys) = (before x y ≡ true) × IsChain before (y ∷ ys)

  take_append_drop : (n : ℕ) (xs : List A) → take n xs ++ drop n xs ≡ xs
  take_append_drop zero xs = refl
  take_append_drop (suc n) [] = refl
  take_append_drop (suc n) (x ∷ xs) = ap (λ l. x ∷ l) (take_append_drop n xs)

  drop-nil : (n : ℕ) → drop {A = A} n [] ≡ []
  drop-nil zero = refl
  drop-nil (suc n) = refl

  drop-drop : (m n : ℕ) (xs : List A) → drop m (drop n xs) ≡ drop (n + m) xs
  drop-drop m zero xs = ap (λ k. drop k xs) (omega arith)
  drop-drop m (suc n) [] = drop-nil m ∙ sym (drop-nil (suc n + m))
  drop-drop m (suc n) (x ∷ xs) = drop-drop m n xs ∙ ap (λ k. drop k (x ∷ xs)) (next n m)

  length-drop :
      (n : ℕ) (xs : List A) (bound : ℕ) → length xs ≤ n + bound → length (drop n xs) ≤ bound
  length-drop zero xs bound h = omega arith
  length-drop (suc n) [] bound h = omega arith
  length-drop (suc n) (x ∷ xs) bound h = length-drop n xs bound (omega arith)

  empty_of_length : (xs : List A) → length xs ≤ 0 → xs ≡ []
  empty_of_length [] h = refl
  empty_of_length (x ∷ xs) h = absurd (omega arith)

  -- The pages of a reader that asks for the next one n times.
  abbrev pub pages : (limit : ℕ) → ℕ → (offset : ℕ) → List A → List A
  pages limit zero offset rows = []
  pages limit (suc n) offset rows = page limit offset rows ++ pages limit n (offset + limit) rows

  shorter :
      (limit n offset : ℕ) (rows : List A)
      → length (drop offset rows) ≤ suc n * limit
      → length (drop (offset + limit) rows) ≤ n * limit
  shorter limit n offset rows h =
      rw (sym (drop-drop limit offset rows))
        (length-drop limit (drop offset rows) (n * limit) (omega (arith, h, one_page n limit)))

  pub pages-drop :
      (limit n offset : ℕ) (rows : List A)
      → length (drop offset rows) ≤ n * limit
      → pages limit n offset rows ≡ drop offset rows
  pages-drop limit zero offset rows h =
      sym (empty_of_length (drop offset rows) (omega (arith, h, no_pages limit)))
  pages-drop limit (suc n) offset rows h =
      ap (λ l. take limit (drop offset rows) ++ l)
        (pages-drop limit n (offset + limit) rows (shorter limit n offset rows h))
      ∙ ap (λ l. take limit (drop offset rows) ++ l) (sym (drop-drop limit offset rows))
      ∙ take_append_drop limit (drop offset rows)

module _ {ℓ} {A : Type ℓ} (test : A → Bool) where
  count_cons :
      (x : A) (xs : List A) → count test (x ∷ xs) ≡ (if test x then 1 else 0) + count test xs
  count_cons x xs = elim (Bool-cases (test x)) [
    | inl hit ↦ rw hit (omega arith)
    | inr miss ↦ rw miss (omega arith)
  ]

  insert_by-count :
      (before : A → A → Bool) (x : A) (xs : List A)
      → count test (insert_by before x xs) ≡ count test (x ∷ xs)
  insert_by-count before x [] = refl
  insert_by-count before x (y ∷ ys) = elim (Bool-cases (before x y)) [
    | inl first ↦ rw first refl
    | inr later ↦ rw later (
        omega (
          arith,
          insert_by-count before x ys,
          count_cons y (insert_by before x ys),
          count_cons x ys,
          count_cons x (y ∷ ys),
          count_cons y ys,
        ))
  ]

  order_by-count :
      (before : A → A → Bool) (xs : List A) → count test (order_by before xs) ≡ count test xs
  order_by-count before [] = refl
  order_by-count before (x ∷ xs) =
      insert_by-count before x (order_by before xs)
      ∙ omega (arith, order_by-count before xs, count_cons x (order_by before xs), count_cons x xs)

module _ {ℓ} {A : Type ℓ} (before : A → A → Bool) where
  -- To order rows is to lose none, and to add none.
  pub order_by-IsSameMultiset : (xs : List A) → IsSameMultiset (order_by before xs) xs
  order_by-IsSameMultiset xs = record { at = λ test. order_by-count test before xs }

  pub length-order_by : (xs : List A) → length (order_by before xs) ≡ length xs
  length-order_by xs =
      sym (all_pass (order_by before xs)) ∙ order_by-count (λ x. true) before xs ∙ all_pass xs
    where
      all_pass : (ys : List A) → count (λ x. true) ys ≡ length ys
      all_pass [] = refl
      all_pass (y ∷ ys) = ap suc (all_pass ys)

  module _ (total : (x y : A) → before x y ≡ false → before y x ≡ true) where
    behind :
        (x y : A) (ys : List A)
        → before y x ≡ true
        → IsChain before (y ∷ ys)
        → IsChain before (y ∷ insert_by before x ys)
    behind x y [] k h = (k, tt)
    behind x y (z ∷ zs) k h = elim (Bool-cases (before x z)) [
      | inl first ↦ rw first (k, (first, h.1))
      | inr later ↦ rw later (h.0, behind x z zs (total x z later) h.1)
    ]

    insert_by-IsChain :
        (x : A) (ys : List A) → IsChain before ys → IsChain before (insert_by before x ys)
    insert_by-IsChain x [] h = tt
    insert_by-IsChain x (y ∷ ys) h = elim (Bool-cases (before x y)) [
      | inl first ↦ rw first (first, h)
      | inr later ↦ rw later (behind x y ys (total x y later) h)
    ]

    pub order_by-IsChain : (xs : List A) → IsChain before (order_by before xs)
    order_by-IsChain [] = tt
    order_by-IsChain (x ∷ xs) = insert_by-IsChain x (order_by before xs) (order_by-IsChain xs)
