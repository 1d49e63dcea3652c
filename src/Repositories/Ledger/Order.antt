-- ===== src/Repositories/Ledger/Order.antt =====
-- The order of `list_entries`: total, and without ties on rows of distinct entries.
use payment_ledger_api.Common.{
  ltb, string_eq, ◌<◌, ◌⊎◌, inl, inr, none, some, ◌∷◌, any, ◌||◌, ◌==◌, nat_eq, insert_by,
  Bool-cases, ◌≡◌, refl, ap, ◌∙◌, Bool, true, false, Option, List, [], order_by, IsChain, arith,
}
use payment_ledger_api.Model.{Uuid, Timestamp, Entry, Transaction}
use payment_ledger_api.Repositories.Ledger.{posted_later, newest_first}

-- `ORDER BY` of `list_entries`.
abbrev pub ledger_order : Entry × Transaction → Entry × Transaction → Bool
ledger_order r q = newest_first r.1 r.0.id q.1 q.0.id

posted_later-total : (a b : Option Timestamp) → posted_later a b ≡ true → posted_later b a ≡ false
posted_later-total a b h = ground arith

pub newest_first-total :
    (t u : Transaction) (i j : Uuid) → newest_first t i u j ≡ false → newest_first u j t i ≡ true
newest_first-total t u i j h =
    ground (
      arith,
      posted_later-total t.posted_at u.posted_at,
      posted_later-total u.posted_at t.posted_at,
    )

-- What `ORDER BY transaction_date DESC, posted_at DESC, id` says, without ties: a later date, or the
-- same date and a later time of posting, of which NULL is the latest, or both the same and a lower id.
abbrev pub IsPostedLater : Option Timestamp → Option Timestamp → Type 0
IsPostedLater none (some b) = Unit
IsPostedLater (some a) (some b) = b < a
IsPostedLater _ none = ⊥

abbrev pub Precedes : Entry × Transaction → Entry × Transaction → Type 0
Precedes (e, t) (f, u) =
    (u.transaction_date < t.transaction_date)
    ⊎ (t.transaction_date ≡ u.transaction_date)
      × (IsPostedLater t.posted_at u.posted_at ⊎ (t.posted_at ≡ u.posted_at) × (e.id < f.id))

abbrev pub IsInOrder : List (Entry × Transaction) → Type 0
IsInOrder [] = Unit
IsInOrder (r ∷ []) = Unit
IsInOrder (r ∷ q ∷ rows) = Precedes r q × IsInOrder (q ∷ rows)

-- No two rows are of one entry: `id` is the primary key.
abbrev pub AreOfDistinctEntries : List (Entry × Transaction) → Type 0
AreOfDistinctEntries [] = Unit
AreOfDistinctEntries (r ∷ rows) =
    (any (λ q. q.0.id == r.0.id) rows ≡ false) × AreOfDistinctEntries rows

posted_later-IsPostedLater : (a b : Option Timestamp) → posted_later a b ≡ true → IsPostedLater a b
posted_later-IsPostedLater none none h = cc
posted_later-IsPostedLater none (some b) h = tt
posted_later-IsPostedLater (some a) none h = cc
posted_later-IsPostedLater (some a) (some b) h = ground arith

posted_later-same :
    (a b : Option Timestamp) → posted_later a b ≡ false → posted_later b a ≡ false → a ≡ b
posted_later-same none none h k = refl
posted_later-same none (some b) h k = cc
posted_later-same (some a) none h k = cc
posted_later-same (some a) (some b) h k = ap some (ground arith)

-- On one date the time of posting decides, and then the id.
same_date :
    (r q : Entry × Transaction)
    → r.1.transaction_date ≡ q.1.transaction_date
    → ledger_order r q ≡ true
    → (q.0.id == r.0.id) ≡ false
    → IsPostedLater r.1.posted_at q.1.posted_at
      ⊎ (r.1.posted_at ≡ q.1.posted_at) × (r.0.id < q.0.id)
same_date r q same h k = elim (Bool-cases (posted_later r.1.posted_at q.1.posted_at)) [
  | inl first ↦ inl (posted_later-IsPostedLater r.1.posted_at q.1.posted_at first)
  | inr miss ↦ elim (Bool-cases (posted_later q.1.posted_at r.1.posted_at)) [
    | inl late ↦ absurd (ground arith)
    | inr tie ↦ inr (posted_later-same r.1.posted_at q.1.posted_at miss tie, ground arith)
  ]
]

Precedes-intro :
    (r q : Entry × Transaction)
    → ledger_order r q ≡ true
    → (q.0.id == r.0.id) ≡ false
    → Precedes r q
Precedes-intro r q h k = elim (Bool-cases (ltb q.1.transaction_date r.1.transaction_date)) [
  | inl later ↦ inl (ground arith)
  | inr miss ↦
      (let same : r.1.transaction_date ≡ q.1.transaction_date = ground arith in
        inr (same, same_date r q same h k))
]

pub IsInOrder-intro :
    (rows : List (Entry × Transaction))
    → IsChain ledger_order rows
    → AreOfDistinctEntries rows
    → IsInOrder rows
IsInOrder-intro [] h d = tt
IsInOrder-intro (r ∷ []) h d = tt
IsInOrder-intro (r ∷ q ∷ rows) h d =
    (Precedes-intro r q h.0 (ground (arith, d.0)), IsInOrder-intro (q ∷ rows) h.1 d.1)

any-insert_by :
    (test : Entry × Transaction → Bool) (r : Entry × Transaction)
    (rows : List (Entry × Transaction))
    → any test (insert_by ledger_order r rows) ≡ any test (r ∷ rows)
any-insert_by test r [] = refl
any-insert_by test r (q ∷ rows) = elim (Bool-cases (ledger_order r q)) [
  | inl first ↦ rw first refl
  | inr later ↦ rw (later, any-insert_by test r rows) (ground arith)
]

any-order_by :
    (test : Entry × Transaction → Bool) (rows : List (Entry × Transaction))
    → any test (order_by ledger_order rows) ≡ any test rows
any-order_by test [] = refl
any-order_by test (r ∷ rows) =
    any-insert_by test r (order_by ledger_order rows)
    ∙ ap (λ b. test r || b) (any-order_by test rows)

insert_by-AreOfDistinctEntries :
    (r : Entry × Transaction) (rows : List (Entry × Transaction))
    → any (λ q. q.0.id == r.0.id) rows ≡ false
    → AreOfDistinctEntries rows
    → AreOfDistinctEntries (insert_by ledger_order r rows)
insert_by-AreOfDistinctEntries r [] h d = (refl, tt)
insert_by-AreOfDistinctEntries r (q ∷ rows) h d = elim (Bool-cases (ledger_order r q)) [
  | inl first ↦ rw first (h, d)
  | inr later ↦ rw later (
    any-insert_by (λ p. p.0.id == q.0.id) r rows ∙ ground (arith, h, d.0),
    insert_by-AreOfDistinctEntries r rows (ground (arith, h)) d.1,
  )
]

pub order_by-AreOfDistinctEntries :
    (rows : List (Entry × Transaction))
    → AreOfDistinctEntries rows
    → AreOfDistinctEntries (order_by ledger_order rows)
order_by-AreOfDistinctEntries [] d = tt
order_by-AreOfDistinctEntries (r ∷ rows) d =
    insert_by-AreOfDistinctEntries r (order_by ledger_order rows)
      (any-order_by (λ q. q.0.id == r.0.id) rows ∙ d.0) (order_by-AreOfDistinctEntries rows d.1)
