-- ===== src/Ledger/Once.antt =====
-- No transaction is reversed more than once.
use payment_ledger_api.Common.{
  ℕ, ◌+◌, ◌≤◌, ◌≡◌, refl, ap, sym, ◌∙◌, Bool, true, false, ◌&&◌, ◌||◌, ◌⊎◌, nat_beq_iff, none, some,
  List, [], ◌∷◌, ◌++◌, map, filter, any, any-append, length, sum_where, sum_where-append, inl, inr,
  ◌==◌, nat_eq, Bool-cases, if◌then◌else◌, arith,
}
use payment_ledger_api.Model.{Uuid, Transaction, TransactionStatus, status_eq}
use payment_ledger_api.Repositories.Transactions.{is_voidable, void_row}
use payment_ledger_api.Ledger.{AreDistinct}

abbrev pub is_reversal_of : Uuid → Transaction → Bool
is_reversal_of id t = elim t.metadata [ none ↦ false | some original ↦ original == id ]

-- How many headers say that they reverse it.
abbrev pub reversals : Uuid → List Transaction → ℕ
reversals id ts = sum_where (is_reversal_of id) (λ t. 1) ts

abbrev pub is_voided : Uuid → List Transaction → Bool
is_voided id ts = any (λ t. t.id == id && t.status == TransactionStatus.voided) ts

-- A transaction is reversed at most once, and if it is, it is VOIDED.
pub record IsReversedOnce (ts : List Transaction) : Type 0 where
  pub at : (id : Uuid) → reversals id ts ≤ (if is_voided id ts then 1 else 0)

reversals-void_row :
    (id j : Uuid) (ts : List Transaction) → reversals id (map (void_row j) ts) ≡ reversals id ts
reversals-void_row id j [] = refl
reversals-void_row id j (t ∷ ts) = elim (Bool-cases (is_voidable j t)) [
  | inl hit ↦ rw (hit, reversals-void_row id j ts) refl
  | inr miss ↦ rw (miss, reversals-void_row id j ts) refl
]

is_voided-void_row :
    (id j : Uuid) (ts : List Transaction)
    → is_voided id ts ≡ true
    → is_voided id (map (void_row j) ts) ≡ true
is_voided-void_row id j [] h = h
is_voided-void_row id j (t ∷ ts) h = ground (arith, is_voided-void_row id j ts)

-- The row that the UPDATE hits is VOIDED after it.
voidable-voided :
    (id : Uuid) (ts : List Transaction)
    → any (is_voidable id) ts ≡ true
    → is_voided id (map (void_row id) ts) ≡ true
voidable-voided id [] h = cc
voidable-voided id (t ∷ ts) h = ground (arith, voidable-voided id ts)

no_id-is_voided :
    (id : Uuid) (ts : List Transaction) → any (λ r. r.id == id) ts ≡ false → is_voided id ts ≡ false
no_id-is_voided id [] h = refl
no_id-is_voided id (t ∷ ts) h = ground (arith, no_id-is_voided id ts)

no_id-voidable :
    (id : Uuid) (ts : List Transaction)
    → any (λ r. r.id == id) ts ≡ false
    → any (is_voidable id) ts ≡ false
no_id-voidable id [] h = refl
no_id-voidable id (t ∷ ts) h = ground (arith, no_id-voidable id ts)

-- What may be voided is not VOIDED yet.
voidable-not_voided :
    (id : Uuid) (ts : List Transaction)
    → AreDistinct ts
    → any (is_voidable id) ts ≡ true
    → is_voided id ts ≡ false
voidable-not_voided id [] d h = cc
voidable-not_voided id (t ∷ ts) d h = elim (Bool-cases (t.id == id)) [
  | inl hit ↦
      (let rest : any (λ r. r.id == id) ts ≡ false =
          ap (λ i. any (λ r. r.id == i) ts) (sym ((nat_beq_iff t.id id).0 hit)) ∙ d.0 in
        ground (arith, no_id-is_voided id ts rest, no_id-voidable id ts rest))
  | inr miss ↦ rw miss (voidable-not_voided id ts d.1 (rw miss at h))
]

any-length :
    (id : Uuid) (ts : List Transaction)
    → length (filter (is_voidable id) ts) ≡ 1
    → any (is_voidable id) ts ≡ true
any-length id [] h = cc
any-length id (t ∷ ts) h = ground (arith, any-length id ts)

-- One more header, after which what was VOIDED is.
at_most_one :
    (n k m : ℕ) (before after : Bool)
    → n ≤ (if before then 1 else 0)
    → m ≡ n + k
    → ((k ≡ 0) × (before ≡ true → after ≡ true)) ⊎ ((k ≡ 1) × (before ≡ false) × (after ≡ true))
    → m ≤ (if after then 1 else 0)
at_most_one n k m true after h e (inl (none_more, keeps)) = rw (keeps refl) (omega arith)
at_most_one n k m false true h e (inl (none_more, keeps)) = omega arith
at_most_one n k m false false h e (inl (none_more, keeps)) = omega arith
at_most_one n k m before after h e (inr (one_more, fresh, voided)) = ground arith

one_reversal :
    (id : Uuid) (t : Transaction) → reversals id (t ∷ []) ≡ (if is_reversal_of id t then 1 else 0)
one_reversal id t = elim (Bool-cases (is_reversal_of id t)) [
  | inl hit ↦ rw hit refl
  | inr miss ↦ rw miss refl
]

reversals-append :
    (id : Uuid) (ts : List Transaction) (t : Transaction)
    → reversals id (ts ++ t ∷ []) ≡ reversals id ts + (if is_reversal_of id t then 1 else 0)
reversals-append id ts t =
    sum_where-append (is_reversal_of id) (λ t. 1) ts (t ∷ [])
    ∙ ap (λ n. reversals id ts + n) (one_reversal id t)

is_voided-append :
    (id : Uuid) (ts us : List Transaction) → is_voided id ts ≡ true → is_voided id (ts ++ us) ≡ true
is_voided-append id ts us h =
    any-append (λ t. t.id == id && t.status == TransactionStatus.voided) ts us
    ∙ ap (λ b. b || is_voided id us) h

-- A header that reverses nothing.
pub IsReversedOnce-append :
    (ts : List Transaction) (t : Transaction)
    → t.metadata ≡ none
    → IsReversedOnce ts
    → IsReversedOnce (ts ++ t ∷ [])
IsReversedOnce-append ts t plain once = record {
  at = λ id.
      at_most_one (reversals id ts) (if is_reversal_of id t then 1 else 0)
        (reversals id (ts ++ t ∷ [])) (is_voided id ts) (is_voided id (ts ++ t ∷ [])) (once.at id)
        (reversals-append id ts t) (inl (rw plain refl, is_voided-append id ts (t ∷ [])));
}

reverses_at :
    (id j : Uuid) (r : Transaction) (b : Bool)
    → r.metadata ≡ some id
    → (id == j) ≡ b
    → is_reversal_of j r ≡ b
reverses_at id j r b h k = rw h k

-- The void of a row that was POSTED, and its reversal.
pub IsReversedOnce-void :
    (id : Uuid) (ts : List Transaction) (r : Transaction)
    → AreDistinct ts
    → length (filter (is_voidable id) ts) ≡ 1
    → r.metadata ≡ some id
    → IsReversedOnce ts
    → IsReversedOnce (map (void_row id) ts ++ r ∷ [])
IsReversedOnce-void id ts r d won reverses once = record {
  at = λ j.
      let us = map (void_row id) ts in
      let grown : reversals j (us ++ r ∷ [])
          ≡ reversals j ts + (if is_reversal_of j r then 1 else 0) =
        reversals-append j us r
        ∙ ap (λ n. n + (if is_reversal_of j r then 1 else 0)) (reversals-void_row j id ts) in
      at_most_one (reversals j ts) (if is_reversal_of j r then 1 else 0)
        (reversals j (us ++ r ∷ [])) (is_voided j ts) (is_voided j (us ++ r ∷ [])) (once.at j) grown
        (elim (Bool-cases (id == j)) [
          | inl own ↦
              (let same = (nat_beq_iff id j).0 own in
                let hit = any-length id ts won in
                inr (
                  ap (λ b. if b then 1 else 0) (reverses_at id j r true reverses own),
                  rw⁻¹ same (voidable-not_voided id ts d hit),
                  is_voided-append j us (r ∷ []) (rw⁻¹ same (voidable-voided id ts hit)),
                ))
          | inr other ↦ inl (
            ap (λ b. if b then 1 else 0) (reverses_at id j r false reverses other),
            λ h. is_voided-append j us (r ∷ []) (is_voided-void_row j id ts h),
          )
        ]);
}

-- So no transaction has two reversals.
pub IsReversedOnce-reversals :
    (ts : List Transaction) (id : Uuid) → IsReversedOnce ts → reversals id ts ≤ 1
IsReversedOnce-reversals ts id once = at_most (is_voided id ts) (once.at id)
  where
    at_most : (b : Bool) → reversals id ts ≤ (if b then 1 else 0) → reversals id ts ≤ 1
    at_most true h = h
    at_most false h = omega arith
