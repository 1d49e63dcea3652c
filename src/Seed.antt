-- ===== src/Seed.antt =====
-- scripts/seed_demo_user.py: the demo user and sample data, written in one database transaction.
-- bcrypt's hash, `uuid4()`, the clock and the day are the parameters of a run.
pub mod Once
pub mod Url
use payment_ledger_api.Common.{
  String, true, none, some, List, [], ◌∷◌, any, ◌==◌, nat_eq, string_eq, if◌then◌else◌,
}
use payment_ledger_api.Common.Int.{pos}
use payment_ledger_api.Model.{
  Uuid, Date, Timestamp, Account, AccountType, Currency, Direction, Entry, Transaction,
  TransactionStatus, User, UserRole,
}
use payment_ledger_api.Errors.{Result, ok, ◌>>=◌}
use payment_ledger_api.Db.{
  Db, has_transaction, insert_user, insert_currency, insert_account, insert_transaction,
  insert_entry,
}
use payment_ledger_api.Session.{fire_triggers}

abbrev pub demo_email : String
demo_email = "demo@example.com"

-- The last two digits of each id are hexadecimal; all others are 0.
abbrev pub demo_user_id : Uuid
demo_user_id = 1

abbrev pub cash_account_id : Uuid
cash_account_id = 16

abbrev pub revenue_account_id : Uuid
revenue_account_id = 17

abbrev pub transaction_id : Uuid
transaction_id = 32

abbrev pub entry_debit_id : Uuid
entry_debit_id = 48

abbrev pub entry_credit_id : Uuid
entry_credit_id = 49

pub record Run : Type 0 where
  pub hashed : String
  pub uuid4 : Uuid
  pub now : Timestamp
  pub today : Date

abbrev pub demo_user : Run → User
demo_user run = record {
  id = demo_user_id;
  email = demo_email;
  hashed_password = run.hashed;
  role = UserRole.admin;
  is_active = true;
  created_at = run.now;
}

abbrev pub us_dollar : Run → Currency
us_dollar run = record {
  id = run.uuid4;
  code = "USD";
  name = "US Dollar";
  decimal_places = pos 2;
  is_active = true;
  created_at = run.now;
}

abbrev pub demo_account : Uuid → (code name : String) → AccountType → Run → Account
demo_account acct_id code name acct_type run = record {
  id = acct_id;
  code = code;
  name = name;
  account_type = acct_type;
  currency = "USD";
  is_active = true;
  created_at = run.now;
  updated_at = run.now;
}

unfoldable pub seed_user : Run → Db → Result Db
seed_user run db =
    if any (λ u. u.email == demo_email) db.users then ok db else insert_user (demo_user run) db

unfoldable pub seed_currency : Run → Db → Result Db
seed_currency run db =
    if any (λ c. c.code == "USD") db.currencies then ok db else insert_currency (us_dollar run) db

unfoldable pub seed_account : Uuid → (code name : String) → AccountType → Run → Db → Result Db
seed_account acct_id code name acct_type run db =
    if any (λ a. a.code == code) db.accounts
    then ok db
    else insert_account (demo_account acct_id code name acct_type run) db

abbrev pub demo_transaction : Run → Transaction
demo_transaction run = record {
  id = transaction_id;
  description = "Demo: Cash sale $50.00";
  transaction_date = run.today;
  status = TransactionStatus.posted;
  posted_at = some run.now;
  created_at = run.now;
  metadata = none;
}

abbrev pub demo_entry : Uuid → Uuid → Direction → Entry
demo_entry id account_id direction = record {
  id = id;
  transaction_id = transaction_id;
  account_id = account_id;
  direction = direction;
  amount = 5000;
  currency = "USD";
  converted_amount_usd = 5000;
}

abbrev pub demo_debit : Entry
demo_debit = demo_entry entry_debit_id cash_account_id Direction.debit

abbrev pub demo_credit : Entry
demo_credit = demo_entry entry_credit_id revenue_account_id Direction.credit

abbrev pub insert_sale : Run → Db → Result Db
insert_sale run db = do
  with_header ← insert_transaction (demo_transaction run) db
  with_debit ← insert_entry demo_debit with_header
  insert_entry demo_credit with_debit

-- The tables, and the rows of `entries` whose trigger is deferred.
unfoldable pub seed_transaction : Run → Db → Result (Db × List Entry)
seed_transaction run db =
    if has_transaction transaction_id db
    then ok (db, [])
    else (insert_sale run db >>= λ after. ok (after, demo_debit ∷ demo_credit ∷ []))

-- `seed`; what raises leaves the tables as they were, since `engine.begin()` rolls back.
unfoldable pub seed : Run → Db → Result Db
seed run db = do
  with_user ← seed_user run db
  with_currency ← seed_currency run with_user
  with_cash ← seed_account cash_account_id "1000" "Cash" AccountType.asset run with_currency
  with_accounts ←
      seed_account revenue_account_id "4000" "Sales Revenue" AccountType.revenue run with_cash
  done ← seed_transaction run with_accounts
  _ ← fire_triggers done.1 done.0
  ok done.0
