-- ===== src/Schemas/Valid.antt =====
-- Which request bodies the validators let through, and what they make of them.
use payment_ledger_api.Common.{ℕ, ◌≤◌, ◌<◌, ◌≡◌, false, List, [], ◌∷◌, length, arith, inl, inr}
use payment_ledger_api.Common.Int.{ℤ, pos, negsuc}
use payment_ledger_api.Errors.{ok, Result-cases}
use payment_ledger_api.Schemas.{
  EntryBody, EntryCreate, TransactionBody, TransactionCreate, amount_must_be_positive, is_blank,
  description_must_not_be_blank, entry_create, entry_creates, entries_must_have_at_least_two,
  default_currency_code, transaction_create,
}

-- An entry is the JSON entry, with an amount that is positive.
pub record IsEntryOf (b : EntryBody) (e : EntryCreate) : Type 0 where
  pub account : e.account_id ≡ b.account_id
  pub direction : e.direction ≡ b.direction
  pub amount : pos e.amount ≡ b.amount
  pub positive : 0 < e.amount
  pub currency : e.currency ≡ b.currency

abbrev pub AreEntriesOf : List EntryBody → List EntryCreate → Type 0
AreEntriesOf [] [] = Unit
AreEntriesOf (b ∷ bs) (e ∷ es) = IsEntryOf b e × AreEntriesOf bs es
AreEntriesOf _ _ = ⊥

pub record IsRequestOf (b : TransactionBody) (p : TransactionCreate) : Type 0 where
  pub currency_code : p.currency_code ≡ default_currency_code b.currency_code
  pub description : p.description ≡ b.description
  pub not_blank : is_blank b.description ≡ false
  pub transaction_date : p.transaction_date ≡ b.transaction_date
  pub entries : AreEntriesOf b.entries p.entries
  pub at_least_two : 2 ≤ length p.entries

amount-ok : (z : ℤ) {n : ℕ} → amount_must_be_positive z ≡ ok n → (pos n ≡ z) × (0 < n)
unfolding amount_must_be_positive
amount-ok (pos m) h = ground arith
amount-ok (negsuc m) h = cc

entry_create-ok : (b : EntryBody) {e : EntryCreate} → entry_create b ≡ ok e → IsEntryOf b e
unfolding entry_create
entry_create-ok b {e} h = elim (Result-cases (amount_must_be_positive b.amount)) [
  | inr (x, p) ↦ ground arith
  | inl (n, p) ↦
      (let checked = amount-ok b.amount p in
        record {
          account = ground arith;
          direction = ground arith;
          amount = ground (arith, checked.0);
          positive = ground (arith, checked.1);
          currency = ground arith;
        })
]

entry_creates-ok :
    (bs : List EntryBody) (es : List EntryCreate) → entry_creates bs ≡ ok es → AreEntriesOf bs es
unfolding entry_creates
entry_creates-ok [] [] h = tt
entry_creates-ok [] (e ∷ es) h = cc
entry_creates-ok (b ∷ bs) es h = elim (Result-cases (entry_create b)) [
  | inr (x, p) ↦ ground arith
  | inl (e, p) ↦ elim (Result-cases (entry_creates bs)) [
    | inr (x, q) ↦ ground arith
    | inl (rest, q) ↦
        (let both : es ≡ e ∷ rest = ground arith in
          rw both (entry_create-ok b p, entry_creates-ok bs rest q))
  ]
]

-- A body that passes has a description that is not blank and at least two entries, each with a
-- positive amount, and the request is this body: the same entries in the same order, and USD where
-- no currency code was given.
pub transaction_create-IsRequestOf :
    (b : TransactionBody) {p : TransactionCreate} → transaction_create b ≡ ok p → IsRequestOf b p
unfolding transaction_create description_must_not_be_blank entries_must_have_at_least_two
transaction_create-IsRequestOf b {p} h = elim (Result-cases (entry_creates b.entries)) [
  | inr (x, q) ↦ ground arith
  | inl (es, q) ↦
      (let same : p.entries ≡ es = ground arith in
        record {
          currency_code = ground arith;
          description = ground arith;
          not_blank = ground arith;
          transaction_date = ground arith;
          entries = rw same (entry_creates-ok b.entries es q);
          at_least_two = ground arith;
        })
]
