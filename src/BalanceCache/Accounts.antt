-- ===== src/BalanceCache/Accounts.antt =====
-- The balances of the accounts that are there when one more is created.
use mathlib.Core.List.{append-nil}
use mathlib.Core.Path.{ap₂}
use payment_ledger_api.Common.{
  ◌≡◌, refl, ap, sym, ◌∙◌, Bool, false, some, List, [], ◌∷◌, ◌++◌, filter, filter-none,
  filter-append, if◌then◌else◌, any, inl, inr, ◌==◌, nat_eq, nat_beq_iff, Bool-cases, Option-cases,
}
use payment_ledger_api.Model.{Uuid, Date, Account}
use payment_ledger_api.Errors.{ok, Result-cases}
use payment_ledger_api.Db.{Db}
use payment_ledger_api.Repositories.{scalar_one_or_none}
use payment_ledger_api.Repositories.Accounts.{find_by_id, calculate_balance}
use payment_ledger_api.BalanceCache.{CachedBalance, compute, balance_of}
use payment_ledger_api.BalanceCache.Writes.{calculate_balance-same}

-- An account that is found is found after one more row with another id.
find_by_id-append :
    (id : Uuid) (a : Account) (rows : List Account) {found : Account}
    → any (λ r. r.id == a.id) rows ≡ false
    → scalar_one_or_none (filter (λ r. r.id == id) rows) ≡ ok (some found)
    → scalar_one_or_none (filter (λ r. r.id == id) (rows ++ a ∷ [])) ≡ ok (some found)
unfolding scalar_one_or_none
find_by_id-append id a rows {found} new h = elim (Bool-cases (a.id == id)) [
  | inl hit ↦ cc (
    h,
    ap scalar_one_or_none (
        filter-none (λ r. r.id == id) rows
          (ap (λ i. any (λ (r : Account). r.id == i) rows) (sym ((nat_beq_iff a.id id).0 hit))
            ∙ new)),
  )
  | inr miss ↦
      ap scalar_one_or_none (
        filter-append (λ r. r.id == id) rows (a ∷ [])
        ∙ ap (λ (b : Bool). filter (λ r. r.id == id) rows ++ (if b then a ∷ [] else [])) miss
        ∙ append-nil (filter (λ r. r.id == id) rows))
      ∙ h
]

-- So the balance of an account that was there is the same.
pub compute-append :
    (id : Uuid) (as_of : Date) (a : Account) (db : Db) {content : CachedBalance}
    → any (λ r. r.id == a.id) db.accounts ≡ false
    → compute id as_of db ≡ ok content
    → compute id as_of (record db { accounts = db.accounts ++ a ∷ [] }) ≡ ok content
unfolding compute find_by_id
compute-append id as_of a db {content} new c = elim (Result-cases (find_by_id id db)) [
  | inr (x, p) ↦ cc (c, ap (λ r. balance_of r (calculate_balance id as_of db)) p)
  | inl (o, p) ↦ elim (Option-cases o) [
    | inl missing ↦
        cc (c, ap (λ r. balance_of r (calculate_balance id as_of db)) (p ∙ ap (λ x. ok x) missing))
    | inr (found, q) ↦
        (let here : find_by_id id db ≡ ok (some found) = p ∙ ap (λ x. ok x) q in
          ap₂ balance_of (find_by_id-append id a db.accounts new here ∙ sym here) (
            calculate_balance-same id as_of db (record db { accounts = db.accounts ++ a ∷ [] }) refl
              refl)
          ∙ c)
  ]
]
