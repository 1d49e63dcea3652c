-- ===== src/Common/Sets.antt =====
-- Sets made from lists: who is a member, and how many members there are.
use mathlib.Core.Path.{◌≡◌, refl, sym, ◌∙◌}
use mathlib.Core.Bool.{Bool, true, false, ◌||◌}
use mathlib.Core.Logic.{◌⊎◌, inl, inr}
use mathlib.Core.Option.{some}
use mathlib.Core.List.{List, [], ◌∷◌, map}
use native.Mathlib.Omega.{arith}
use payment_ledger_api.Common.Tests.{Comparable, ◌==◌, Bool-cases, ltb}
use payment_ledger_api.Common.Lists.{length, filter, All, contains, to_set, lookup}

module _ {ℓ} {A : Type ℓ} where
  pub filter-eq-nil : (p : A → Bool) (xs : List A) → All (λ x. p x ≡ false) xs → filter p xs ≡ []
  filter-eq-nil p [] h = refl
  filter-eq-nil p (x ∷ xs) h = rw h.0 (filter-eq-nil p xs h.1)

module _ {ℓ} {A : Type ℓ} ⦃e : Comparable A⦄ where
  pub equals_refl : (a : A) → (a == a) ≡ true
  equals_refl a = (e.equals_iff a a).1 refl

  pub All-to_set {κ} : (P : A → Type κ) (xs : List A) → All P xs → All P (to_set xs)
  All-to_set P [] h = tt
  All-to_set P (x ∷ xs) h = elim (Bool-cases (contains (to_set xs) x)) [
    | inl old ↦ rw old (All-to_set P xs h.1)
    | inr new ↦ rw new (h.0, All-to_set P xs h.1)
  ]

  or_keeps : (a x : A) (r s : Bool) → r ≡ s → ((x == a) || r) ≡ ((x == a) || s)
  or_keeps a x r s h = rw h refl

  -- A set has the members of the list that it was made from.
  pub contains-to_set : (a : A) (xs : List A) → contains (to_set xs) a ≡ contains xs a
  contains-to_set a [] = refl
  contains-to_set a (x ∷ xs) = elim (Bool-cases (contains (to_set xs) x)) [
    | inr new ↦ rw new (or_keeps a x _ _ (contains-to_set a xs))
    | inl old ↦ rw old (elim (Bool-cases (x == a)) [
      | inl same ↦ rw same (rw⁻¹ ((e.equals_iff x a).0 same) old)
      | inr other ↦ rw other (contains-to_set a xs)
    ])
  ]

  -- A list of equal elements has a set of at most one.
  to_set-same :
      (c : A) (xs : List A) → All (λ x. x ≡ c) xs → (to_set xs ≡ []) ⊎ (to_set xs ≡ c ∷ [])
  to_set-same c [] h = inl refl
  to_set-same c (x ∷ xs) h = elim (to_set-same c xs h.1) [
    | inl none_left ↦ rw (none_left, h.0) (inr refl)
    | inr one ↦ rw (one, h.0, equals_refl c) (inr refl)
  ]

  pub length-to_set :
      (c : A) (xs : List A) → All (λ x. x ≡ c) xs → ltb 1 (length (to_set xs)) ≡ false
  length-to_set c xs h = elim (to_set-same c xs h) [
    | inl none_left ↦ rw none_left refl
    | inr one ↦ rw one refl
  ]

  All-contains :
      (zs xs : List A)
      → ((a : A) → contains xs a ≡ true → contains zs a ≡ true)
      → All (λ x. contains zs x ≡ true) xs
  All-contains zs [] h = tt
  All-contains zs (x ∷ xs) h =
      (h x (rw (equals_refl x) refl), All-contains zs xs (λ a k. h a (or_true (x == a) k)))
    where
      or_true : (b : Bool) {r : Bool} → r ≡ true → (b || r) ≡ true
      or_true true k = refl
      or_true false k = k

  All-one : (c : A) (xs : List A) → All (λ x. contains (c ∷ []) x ≡ true) xs → All (λ x. x ≡ c) xs
  All-one c [] h = tt
  All-one c (x ∷ xs) h = (only (c == x) refl h.0, All-one c xs h.1)
    where
      only : (b : Bool) → (c == x) ≡ b → (b || false) ≡ true → x ≡ c
      only true k t = sym ((e.equals_iff c x).0 k)
      only false k t = cc

  -- A set of at most one comes from a list of equal elements.
  pub All-of_to_set :
      (x : A) (xs : List A)
      → ltb 1 (length (to_set (x ∷ xs))) ≡ false
      → (c : A) × All (λ y. y ≡ c) (x ∷ xs)
  All-of_to_set x xs h =
      from (to_set (x ∷ xs)) h
        (All-contains (to_set (x ∷ xs)) (x ∷ xs) (λ a k. contains-to_set a (x ∷ xs) ∙ k))
    where
      from :
          (zs : List A)
          → ltb 1 (length zs) ≡ false
          → All (λ y. contains zs y ≡ true) (x ∷ xs)
          → (c : A) × All (λ y. y ≡ c) (x ∷ xs)
      from [] h k = absurd (ground (arith, k.0))
      from (c ∷ []) h k = (c, All-one c (x ∷ xs) k)
      from (c ∷ d ∷ zs) h k = absurd (ground (arith, h))

  pub contains-keys {κ} :
      {V : Type κ} (k : A) (m : List (A × V)) {v : V}
      → lookup k m ≡ some v
      → contains (map (λ p. p.0) m) k ≡ true
  contains-keys k [] h = cc
  contains-keys k ((j, w) ∷ m) h = elim (Bool-cases (j == k)) [
    | inl here ↦ rw here refl
    | inr other ↦ rw other (contains-keys k m (rw other at h))
  ]

  -- Every member of a list is in its set.
  pub All-in_set : (xs : List A) → All (λ x. contains (to_set xs) x ≡ true) xs
  All-in_set xs = All-contains (to_set xs) xs (λ a k. contains-to_set a xs ∙ k)
