-- ===== src/Services/Admin.antt =====
-- app/services/account_service.py, currency_service.py and user_service.py: the creation of an
-- account, a currency, an exchange rate and a user, each with its audit log.
pub mod Added
pub mod Kept
use payment_ledger_api.Common.{String, Option, none, some, [], ◌∷◌}
use payment_ledger_api.Model.{
  Uuid, Account, account_type_value, Currency, ExchangeRate, User, UserRole, role_value, string,
  uuid, date, decimal, int, Snapshot,
}
use payment_ledger_api.Errors.{
  Result, ok, err, validation_error, conflict_error, unknown_currency, duplicate_email,
}
use payment_ledger_api.Session.{Action, pure, lift, get, ◌>>=◌, ◌>>◌}
use payment_ledger_api.Repositories.Accounts.{NewAccount}
use payment_ledger_api.Repositories.Accounts.{save as save_account}
use payment_ledger_api.Repositories.Currencies.{
  NewCurrency, NewExchangeRate, save as save_currency, save_exchange_rate, find_by_code,
}
use payment_ledger_api.Repositories.Users.{save as save_user, find_by_email}
use payment_ledger_api.Repositories.Audit.{log}
use payment_ledger_api.Services.Transactions.{found_or}

abbrev pub account_snapshot : Account → Snapshot
account_snapshot a =
    ("id", uuid a.id)
    ∷ ("code", string a.code)
    ∷ ("name", string a.name)
    ∷ ("account_type", string (account_type_value a.account_type))
    ∷ ("currency", string a.currency)
    ∷ []

unfoldable pub create_account : NewAccount → Uuid → Action Account
create_account payload user_id = do
  db ← get (λ s. s.db)
  known ← lift (find_by_code payload.currency db)
  _ ← lift (found_or (validation_error (unknown_currency payload.currency)) known)
  saved ← save_account payload
  log user_id "account" saved.id "create" none (some (account_snapshot saved))
  pure saved

abbrev pub currency_snapshot : Currency → Snapshot
currency_snapshot c =
    ("id", uuid c.id)
    ∷ ("code", string c.code)
    ∷ ("name", string c.name)
    ∷ ("decimal_places", int c.decimal_places)
    ∷ []

unfoldable pub create_currency : NewCurrency → Uuid → Action Currency
create_currency payload user_id = do
  saved ← save_currency payload
  log user_id "currency" saved.id "create" none (some (currency_snapshot saved))
  pure saved

abbrev pub rate_snapshot : ExchangeRate → Snapshot
rate_snapshot x =
    ("id", uuid x.id)
    ∷ ("from_currency_id", uuid x.from_currency_id)
    ∷ ("to_currency_id", uuid x.to_currency_id)
    ∷ ("rate", decimal x.rate)
    ∷ ("effective_date", date x.effective_date)
    ∷ []

unfoldable pub create_exchange_rate : NewExchangeRate → Action ExchangeRate
create_exchange_rate payload = do
  saved ← save_exchange_rate payload
  log payload.created_by_id "exchange_rate" saved.id "create" none (some (rate_snapshot saved))
  pure saved

abbrev pub user_snapshot : User → Snapshot
user_snapshot u =
    ("id", uuid u.id) ∷ ("email", string u.email) ∷ ("role", string (role_value u.role)) ∷ []

abbrev pub must_be_new : Option User → Result (Unit {0})
must_be_new none = ok tt
must_be_new (some u) = err (conflict_error duplicate_email)

-- `create_user`; the hash of the password is bcrypt's, a parameter.
unfoldable pub create_user :
    (get_password_hash : String → String) → (email password : String) → UserRole → Action User
create_user get_password_hash email password role = do
  db ← get (λ s. s.db)
  known ← lift (find_by_email email db)
  lift (must_be_new known)
  saved ←
      save_user
        (record { email = email; hashed_password = get_password_hash password; role = role })
  log saved.id "user" saved.id "create" none (some (user_snapshot saved))
  pure saved
