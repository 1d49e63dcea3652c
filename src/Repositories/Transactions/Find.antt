-- ===== src/Repositories/Transactions/Find.antt =====
-- What a query by id finds: the header with that id, and all its entries.
use payment_ledger_api.Common.{
  ◌≡◌, Bool, true, some, List, [], ◌∷◌, map, filter, arith, ◌==◌, nat_eq, inl, inr, Bool-cases,
  nat_beq_iff, ap, ◌∙◌,
}
use payment_ledger_api.Model.{Uuid, Entry, Transaction}
use payment_ledger_api.Errors.{ok}
use payment_ledger_api.Db.{Db}
use payment_ledger_api.Repositories.{scalar_one_or_none}
use payment_ledger_api.Repositories.Transactions.{
  Loaded, with_entries, select_by_id, find_by_id_with_entries,
}

scalar_one_or_none-some {ℓ} :
    {A : Type ℓ} (xs : List A) {a : A} → scalar_one_or_none xs ≡ ok (some a) → xs ≡ a ∷ []
unfolding scalar_one_or_none
scalar_one_or_none-some [] h = cc
scalar_one_or_none-some (x ∷ []) h = cc
scalar_one_or_none-some (x ∷ y ∷ xs) h = cc

map-filter-head {ℓ κ} :
    {A : Type ℓ} {B : Type κ} (f : A → B) (test : A → Bool) (xs : List A) {b : B} {bs : List B}
    → map f (filter test xs) ≡ b ∷ bs
    → (a : A) × (test a ≡ true) × (b ≡ f a)
map-filter-head f test [] h = cc
map-filter-head f test (x ∷ xs) {b} {bs} h = elim (Bool-cases (test x)) [
  | inl hit ↦ (x, hit, ground arith)
  | inr miss ↦ map-filter-head f test xs {bs = bs} (ground arith)
]

map-header :
    (db : Db) (ts : List Transaction) {found : Loaded}
    → map (with_entries db) ts ≡ found ∷ []
    → ts ≡ found.header ∷ []
map-header db [] h = cc
map-header db (t ∷ []) h = ground arith
map-header db (t ∷ u ∷ ts) h = cc

pub find-some :
    (id : Uuid) (db : Db) {found : Loaded}
    → find_by_id_with_entries id db ≡ ok (some found)
    → (found.id ≡ id) × (found.entries ≡ filter (λ e. e.transaction_id == id) db.entries)
unfolding find_by_id_with_entries
find-some id db h =
    let (t, hit, e) =
      map-filter-head (with_entries db) (λ t. t.id == id) db.transactions
        (scalar_one_or_none-some (select_by_id id db) h) in
    let same = (nat_beq_iff t.id id).0 hit in
    (
      ap (λ l. l.id) e ∙ same,
      ap (λ l. l.entries) e ∙ ap (λ i. filter (λ r. r.transaction_id == i) db.entries) same,
    )

-- The one row with the id, in a query that found it.
pub find-one :
    (id : Uuid) (db : Db) {found : Loaded}
    → find_by_id_with_entries id db ≡ ok (some found)
    → filter (λ t. t.id == id) db.transactions ≡ found.header ∷ []
unfolding find_by_id_with_entries
find-one id db h =
    map-header db (filter (λ t. t.id == id) db.transactions)
      (scalar_one_or_none-some (select_by_id id db) h)

pub find-intro :
    (id : Uuid) (db : Db) (t : Transaction) (es : List Entry)
    → filter (λ r. r.id == id) db.transactions ≡ t ∷ []
    → t.id ≡ id
    → filter (λ e. e.transaction_id == id) db.entries ≡ es
    → find_by_id_with_entries id db ≡ ok (some (record { header = t; entries = es }))
unfolding find_by_id_with_entries scalar_one_or_none
find-intro id db t es h same entries =
    ap (λ ts. scalar_one_or_none (map (with_entries db) ts)) h
    ∙ ap (λ fs. ok (some (record { header = t; entries = fs })))
        (ap (λ i. filter (λ e. e.transaction_id == i) db.entries) same ∙ entries)
