-- ===== src/Db.antt =====
-- The database: its tables, and an INSERT into each with the constraints that app/models and the
-- migrations declare. PostgreSQL itself is not under the repository: of it the model uses that a
-- statement which violates a constraint raises and changes nothing.
use Prim.Native.Char.{code}
use Prim.Native.String.{count, [] as empty_text, ◌∷◌ as ◌∷ₜ◌}
use payment_ledger_api.Common.{
  ℕ, ◌^◌, String, Bool, true, false, not, ◌&&◌, ◌||◌, List, [], ◌∷◌, ◌++◌, any, sum_where, ltb,
  ◌==◌, nat_eq, string_eq, if◌then◌else◌,
}
use payment_ledger_api.Common.Int.{ℤ, pos, negsuc}
use payment_ledger_api.Money.{bigint_limit}
use payment_ledger_api.Model.{
  Uuid, Direction, direction_eq, Account, Currency, ExchangeRate, Entry, Transaction, User,
  AuditLog,
}
use payment_ledger_api.Errors.{Result, ok, err, integrity_error, data_error}

pub record Db : Type 0 where
  pub accounts : List Account
  pub currencies : List Currency
  pub exchange_rates : List ExchangeRate
  pub transactions : List Transaction
  pub entries : List Entry
  pub users : List User
  pub audit_logs : List AuditLog

abbrev pub empty : Db
empty = record {
  accounts = [];
  currencies = [];
  exchange_rates = [];
  transactions = [];
  entries = [];
  users = [];
  audit_logs = [];
}

-- Is there a row that a foreign key may refer to?
abbrev pub has_account : Uuid → Db → Bool
has_account id db = any (λ a. a.id == id) db.accounts

abbrev pub has_currency : String → Db → Bool
has_currency code db = any (λ c. c.code == code) db.currencies

abbrev pub has_transaction : Uuid → Db → Bool
has_transaction id db = any (λ t. t.id == id) db.transactions

abbrev pub has_user : Uuid → Db → Bool
has_user id db = any (λ u. u.id == id) db.users

-- A constraint that fails raises, and otherwise the statement goes on.
abbrev pub require : Bool → Result Db → Result Db
require true rest = rest
require false rest = err integrity_error

-- A text that PostgreSQL stores: U+0000 is refused in it.
abbrev pub is_text : String → Bool
is_text empty_text = true
is_text (c ∷ₜ s) = ltb 0 (code c) && is_text s

-- An integer that a column of type INTEGER holds.
abbrev pub fits_integer : ℤ → Bool
fits_integer (pos n) = ltb n (2 ^ 31)
fits_integer (negsuc n) = ltb n (2 ^ 31)

unfoldable pub insert_transaction : Transaction → Db → Result Db
insert_transaction t db =
    if is_text t.description
    then require (not (has_transaction t.id db))
        (ok (record db { transactions = db.transactions ++ t ∷ [] }))
    else err data_error

-- The driver refuses a number that BIGINT cannot hold; then come the CHECK, the primary key and
-- the foreign keys of the table `entries`.
unfoldable pub insert_entry : Entry → Db → Result Db
insert_entry e db =
    if ltb e.amount bigint_limit && ltb e.converted_amount_usd bigint_limit
    then require
        (ltb 0 e.amount
          && not (any (λ r. r.id == e.id) db.entries)
          && has_transaction e.transaction_id db
          && has_account e.account_id db
          && has_currency e.currency db)
        (ok (record db { entries = db.entries ++ e ∷ [] }))
    else err data_error

unfoldable pub insert_account : Account → Db → Result Db
insert_account a db =
    if not (is_text a.code && is_text a.name && is_text a.currency)
      || ltb 100 (count a.name)
      || ltb 3 (count a.currency)
    then err data_error
    else require
        (not (any (λ r. r.id == a.id || r.code == a.code || r.name == a.name) db.accounts)
          && has_currency a.currency db)
        (ok (record db { accounts = db.accounts ++ a ∷ [] }))

unfoldable pub insert_currency : Currency → Db → Result Db
insert_currency c db =
    if not (is_text c.code && is_text c.name && fits_integer c.decimal_places)
      || ltb 100 (count c.name)
      || ltb 3 (count c.code)
    then err data_error
    else require (not (any (λ r. r.id == c.id || r.code == c.code) db.currencies))
        (ok (record db { currencies = db.currencies ++ c ∷ [] }))

-- `Numeric(18, 8)` holds less than 10 ^ 18 of its units.
unfoldable pub insert_exchange_rate : ExchangeRate → Db → Result Db
insert_exchange_rate x db =
    if ltb x.rate (10 ^ 18)
    then require
        (not (
            any
              (λ r.
                r.id == x.id
                || r.from_currency_id == x.from_currency_id
                  && r.to_currency_id == x.to_currency_id
                  && r.effective_date == x.effective_date)
              db.exchange_rates)
          && any (λ c. c.id == x.from_currency_id) db.currencies
          && any (λ c. c.id == x.to_currency_id) db.currencies
          && has_user x.created_by_id db)
        (ok (record db { exchange_rates = db.exchange_rates ++ x ∷ [] }))
    else err data_error

unfoldable pub insert_user : User → Db → Result Db
insert_user u db =
    if is_text u.email && is_text u.hashed_password
    then require (not (any (λ r. r.id == u.id || r.email == u.email) db.users))
        (ok (record db { users = db.users ++ u ∷ [] }))
    else err data_error

unfoldable pub insert_audit_log : AuditLog → Db → Result Db
insert_audit_log a db =
    require (not (any (λ r. r.id == a.id) db.audit_logs) && has_user a.user_id db)
      (ok (record db { audit_logs = db.audit_logs ++ a ∷ [] }))

-- What a transaction moves on one side: `SUM(amount) FILTER (WHERE direction = ...)`.
abbrev pub on_side : Direction → Uuid → Entry → Bool
on_side side id e = e.transaction_id == id && e.direction == side

abbrev pub side_sum : Direction → Uuid → List Entry → ℕ
side_sum side id entries = sum_where (on_side side id) (λ e. e.amount) entries

-- `check_entries_balance()`: both sums go into variables of type BIGINT.
unfoldable pub check_entries_balance : Uuid → Db → Result (Unit {0})
check_entries_balance id db =
    let debit_sum = side_sum Direction.debit id db.entries in
    let credit_sum = side_sum Direction.credit id db.entries in
    if ltb debit_sum bigint_limit && ltb credit_sum bigint_limit
    then (if debit_sum == credit_sum then ok tt else err integrity_error)
    else err data_error
