-- ===== src/Tests/Demo.antt =====
-- A small database and runs of the transaction service on it.
use payment_ledger_api.Common.{ℕ, ◌+◌, String, true, [], ◌∷◌, ◌≡◌, refl, Option}
use payment_ledger_api.Common.Int.{pos}
use payment_ledger_api.Model.{
  Account, AccountType, Currency, ExchangeRate, User, UserRole, Direction,
}
use payment_ledger_api.Errors.{Result}
use payment_ledger_api.Schemas.{EntryCreate, TransactionCreate}
use payment_ledger_api.Db.{
  Db, empty, insert_transaction, insert_entry, insert_audit_log, check_entries_balance,
}
use payment_ledger_api.Money.{convert_amount_usd, round_to_context}
use payment_ledger_api.Session.{Session, get_db, draw}
use payment_ledger_api.Repositories.{scalar_one, scalar_one_or_none}
use payment_ledger_api.Repositories.Accounts.{find_active_by_ids, calculate_balance}
use payment_ledger_api.Repositories.Currencies.{find_by_code, find_exchange_rate}
use payment_ledger_api.Repositories.Transactions.{
  Loaded, save, add_all, add_entry, find_by_id_with_entries, mark_voided_if_posted,
}
use payment_ledger_api.Repositories.Audit.{log}
use payment_ledger_api.Services.Transactions.{
  create_transaction, void_transaction, void_found, resolve_usd_conversion_rate, converted_amounts,
  new_entries,
}
use payment_ledger_api.Services.Transactions.Rules.{check_payload}

abbrev pub account : ℕ → String → String → Account
account id code currency = record {
  id = id;
  code = code;
  name = code;
  account_type = AccountType.asset;
  currency = currency;
  is_active = true;
  created_at = 0;
  updated_at = 0;
}

abbrev pub currency : ℕ → String → Currency
currency id code = record {
  id = id;
  code = code;
  name = code;
  decimal_places = pos 2;
  is_active = true;
  created_at = 0;
}

abbrev pub eur_rate : ExchangeRate
eur_rate = record {
  id = 50;
  from_currency_id = 2;
  to_currency_id = 1;
  rate = 110000000;
  effective_date = 100;
  created_by_id = 7;
  created_at = 0;
}

abbrev pub admin_user : User
admin_user = record {
  id = 7;
  email = "a@example.com";
  hashed_password = "";
  role = UserRole.admin;
  is_active = true;
  created_at = 0;
}

abbrev pub demo_db : Db
demo_db = record empty {
  accounts =
      account 10 "1000" "USD"
      ∷ account 11 "4000" "USD"
      ∷ account 12 "1100" "EUR"
      ∷ account 13 "4100" "EUR"
      ∷ [];
  currencies = currency 1 "USD" ∷ currency 2 "EUR" ∷ [];
  exchange_rates = eur_rate ∷ [];
  users = admin_user ∷ [];
}

abbrev pub session_on : Db → Session
session_on db = record {
  db = db;
  committed = db;
  added = [];
  deferred = [];
  uuid4 = λ n. n + 1000;
  draws = 0;
  now = 5;
  started = 4;
}

abbrev pub line : ℕ → Direction → ℕ → String → EntryCreate
line id direction amount currency = record {
  account_id = id;
  direction = direction;
  amount = amount;
  currency = currency;
}

abbrev pub sale_eur : TransactionCreate
sale_eur = record {
  currency_code = "EUR";
  description = "Sale";
  transaction_date = 120;
  entries = line 12 Direction.debit 1000 "EUR" ∷ line 13 Direction.credit 1000 "EUR" ∷ [];
}

-- A request that is handled in a session of its own, then another one.
abbrev pub create_then_void : Result (Option (Loaded × Loaded)) × Session
create_then_void =
    get_db (void_transaction 1000 7) (get_db (create_transaction sale_eur 7) (session_on demo_db)).1

balance_after_create :
    calculate_balance 12 120
      (get_db (create_transaction sale_eur 7) (session_on demo_db)).1.committed
    ≡ pos 1000
unfolding calculate_balance get_db create_transaction resolve_usd_conversion_rate check_payload
    find_active_by_ids find_by_code find_exchange_rate scalar_one_or_none scalar_one
    converted_amounts new_entries convert_amount_usd round_to_context save add_all add_entry
    insert_transaction insert_entry log insert_audit_log check_entries_balance draw
balance_after_create = refl

balance_after_void : calculate_balance 12 120 create_then_void.1.committed ≡ pos 0
unfolding calculate_balance get_db create_transaction resolve_usd_conversion_rate check_payload
    find_active_by_ids find_by_code find_exchange_rate scalar_one_or_none scalar_one
    converted_amounts new_entries convert_amount_usd round_to_context save add_all add_entry
    insert_transaction insert_entry log insert_audit_log check_entries_balance draw void_transaction
    void_found find_by_id_with_entries mark_voided_if_posted
balance_after_void = refl
