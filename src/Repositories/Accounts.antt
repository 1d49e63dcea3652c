-- ===== src/Repositories/Accounts.antt =====
-- app/repositories/account_repository.py
use payment_ledger_api.Common.{
  ℕ, String, Bool, ◌&&◌, ◌||◌, Option, List, [], ◌∷◌, ◌++◌, map, filter, sum_where, contains,
  order_by, page, leb, ◌==◌, nat_eq,
}
use payment_ledger_api.Common.Int.{ℤ, sub_ℕ}
use payment_ledger_api.Model.{
  Uuid, Date, Direction, direction_eq, TransactionStatus, status_eq, Account, AccountType, Entry,
  Transaction,
}
use payment_ledger_api.Errors.{Result}
use payment_ledger_api.Db.{Db, insert_account}
use payment_ledger_api.Session.{Action, pure, get, execute, draw, ◌>>=◌, ◌>>◌}
use payment_ledger_api.Repositories.{scalar_one_or_none}

-- An `Account` object before its flush; the columns with defaults are left out.
pub record NewAccount : Type 0 where
  pub code : String
  pub name : String
  pub account_type : AccountType
  pub currency : String

-- `save`: the defaults are `uuid4()`, true and the database's `now()`.
unfoldable pub save : NewAccount → Action Account
save new = do
  id ← draw
  at ← get (λ s. s.started)
  let row : Account = record {
    id = id;
    code = new.code;
    name = new.name;
    account_type = new.account_type;
    currency = new.currency;
    is_active = Bool.true;
    created_at = at;
    updated_at = at;
  }
  execute (insert_account row)
  pure row

-- `list_all`; the order of texts is the database's collation, a parameter.
unfoldable pub list_all :
    (collated : String → String → Bool) → (limit offset : ℕ) → Db → List Account
list_all collated limit offset db =
    page limit offset (order_by (λ a b. collated a.code b.code) db.accounts)

unfoldable pub find_by_id : Uuid → Db → Result (Option Account)
find_by_id id db = scalar_one_or_none (filter (λ a. a.id == id) db.accounts)

-- `find_active_by_ids`: the result is a dict from id to currency.
unfoldable pub find_active_by_ids : List Uuid → Db → List (Uuid × String)
find_active_by_ids ids db =
    map (λ a. (a.id, a.currency)) (filter (λ a. contains ids a.id && a.is_active) db.accounts)

-- `entries JOIN transactions ON entries.transaction_id = transactions.id`
abbrev pub joined : List Entry → List Transaction → List (Entry × Transaction)
joined [] txs = []
joined (e ∷ es) txs =
    map (λ t. (e, t)) (filter (λ t. t.id == e.transaction_id) txs) ++ joined es txs

-- The WHERE clause of `calculate_balance`.
abbrev pub counts : Uuid → Date → Entry × Transaction → Bool
counts account_id as_of (e, t) =
    e.account_id == account_id
    && leb t.transaction_date as_of
    && (t.status == TransactionStatus.posted || t.status == TransactionStatus.voided)

-- `SUM(CASE WHEN direction = side THEN amount ELSE 0 END)` over the selected rows.
abbrev pub side_total : Direction → List (Entry × Transaction) → ℕ
side_total side rows = sum_where (λ r. r.0.direction == side) (λ r. r.0.amount) rows

-- `as_of` stands for `as_of.date()`.
unfoldable pub calculate_balance : Uuid → Date → Db → ℤ
calculate_balance account_id as_of db =
    let rows = filter (counts account_id as_of) (joined db.entries db.transactions) in
    sub_ℕ (side_total Direction.debit rows) (side_total Direction.credit rows)
