-- ===== src/Services/Admin/Kept.antt =====
-- What the creations of `Admin` leave alone: the tables of the ledger, and what is committed.
use payment_ledger_api.Common.{◌≡◌, String, arith}
use payment_ledger_api.Model.{Uuid, UserRole}
use payment_ledger_api.Db.{insert_account, insert_currency, insert_exchange_rate, insert_user}
use payment_ledger_api.Session.{Session, Action, draw}
use payment_ledger_api.Session.Laws.{KeepsCommitted}
use payment_ledger_api.Repositories.Accounts.{NewAccount, save as save_account}
use payment_ledger_api.Repositories.Currencies.{
  NewCurrency, NewExchangeRate, save as save_currency, save_exchange_rate,
}
use payment_ledger_api.Repositories.Users.{save as save_user}
use payment_ledger_api.Repositories.Audit.{log}
use payment_ledger_api.Services.Admin.{
  create_account, create_currency, create_exchange_rate, create_user,
}

-- A call that, whether it returns or raises, leaves them alone.
pub record KeepsLedger {ℓ} {A : Type ℓ} (m : Action A) : Type ℓ where
  pub entries : (s : Session) → (m s).1.db.entries ≡ s.db.entries
  pub transactions : (s : Session) → (m s).1.db.transactions ≡ s.db.transactions
  pub audit_logs : (s : Session) → (m s).1.db.audit_logs ≡ s.db.audit_logs
  pub committed : KeepsCommitted m

pub create_currency-KeepsLedger :
    (payload : NewCurrency) (user_id : Uuid) → KeepsLedger (create_currency payload user_id)
unfolding create_currency save_currency draw log insert_currency
create_currency-KeepsLedger payload user_id = record {
  entries = λ s. ground arith;
  transactions = λ s. ground arith;
  audit_logs = λ s. ground arith;
  committed = record { at = λ s. ground arith };
}

pub create_account-KeepsLedger :
    (payload : NewAccount) (user_id : Uuid) → KeepsLedger (create_account payload user_id)
unfolding create_account save_account draw log insert_account
create_account-KeepsLedger payload user_id = record {
  entries = λ s. ground arith;
  transactions = λ s. ground arith;
  audit_logs = λ s. ground arith;
  committed = record { at = λ s. ground arith };
}

pub create_exchange_rate-KeepsLedger :
    (payload : NewExchangeRate) → KeepsLedger (create_exchange_rate payload)
unfolding create_exchange_rate save_exchange_rate draw log insert_exchange_rate
create_exchange_rate-KeepsLedger payload = record {
  entries = λ s. ground arith;
  transactions = λ s. ground arith;
  audit_logs = λ s. ground arith;
  committed = record { at = λ s. ground arith };
}

pub create_user-KeepsLedger :
    (h : String → String) (email password : String) (role : UserRole)
    → KeepsLedger (create_user h email password role)
unfolding create_user save_user draw log insert_user
create_user-KeepsLedger h email password role = record {
  entries = λ s. ground arith;
  transactions = λ s. ground arith;
  audit_logs = λ s. ground arith;
  committed = record { at = λ s. ground arith };
}
