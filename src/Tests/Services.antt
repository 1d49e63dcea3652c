-- ===== src/Tests/Services.antt =====
-- The theorems on the checks, the rates, the other services and the login, at small inputs.
use payment_ledger_api.Common.{
  ◌&&◌, ◌∷◌, ℕ, ◌+◌, ◌*◌, ◌≡◌, refl, ◌⊎◌, true, Option, none, some, [], filter, arith, ltb,
  if◌then◌else◌, ◌==◌, nat_eq, string_eq,
}
use payment_ledger_api.Model.{
  Direction, Entry, Transaction, AccountType, Account, ExchangeRate, User,
}
use payment_ledger_api.Errors.{ok, err, redis_error}
use payment_ledger_api.Db.{insert_account}
use payment_ledger_api.Session.{Session, draw, get_db}
use payment_ledger_api.Repositories.{scalar_one_or_none}
use payment_ledger_api.Repositories.Accounts.{NewAccount, save as save_account}
use payment_ledger_api.Repositories.Audit.{log}
use payment_ledger_api.Repositories.Currencies.{applies, find_exchange_rate, find_by_code}
use payment_ledger_api.Repositories.Currencies.Latest.{IsInForce, find_exchange_rate-IsInForce}
use payment_ledger_api.Repositories.Users.{find_by_email}
use payment_ledger_api.Services.Admin.{create_account}
use payment_ledger_api.Services.Admin.Added.{AccountAdded, create_account-AccountAdded}
use payment_ledger_api.Auth.{
  Libraries, Claims, credentials_exception, get_current_user, login, claims_of,
  login-get_current_user, to_seconds,
}
use payment_ledger_api.Common.Int.{pos}
use payment_ledger_api.Schemas.{EntryBody, TransactionBody, TransactionCreate, transaction_create}
use payment_ledger_api.Schemas.Valid.{IsRequestOf, transaction_create-IsRequestOf}
use payment_ledger_api.Services.Transactions.{create_transaction}
use payment_ledger_api.Routes.{post_transaction, void_transaction_endpoint}
use payment_ledger_api.Routes.Commits.{
  post_transaction-get_db, void_transaction_endpoint-get_db, voided_or_missing, answered_as, posted,
  void_answer,
}
use payment_ledger_api.Tests.Demo.{line, demo_db, sale_eur, admin_user}
use payment_ledger_api.Common.{IsSameMultiset, ◌↔◌}
use payment_ledger_api.Db.{Db}
use payment_ledger_api.Repositories.Ledger.{entry_matches}
use payment_ledger_api.Repositories.Ledger.Order.{IsInOrder}
use payment_ledger_api.Repositories.Ledger.Pages.{list_entries-pages, read_pages, matching, IsAsked}
use payment_ledger_api.Tests.Runs.{start, sold, later}

find_exchange_rate-IsInForce_example :
    ((x : ExchangeRate) × (find_exchange_rate 2 1 120 demo_db ≡ ok (some x))
      × IsInForce 2 1 120 demo_db x)
    ⊎ ((find_exchange_rate 2 1 120 demo_db ≡ ok none)
        × (filter (applies 2 1 120) demo_db.exchange_rates ≡ []))
find_exchange_rate-IsInForce_example = find_exchange_rate-IsInForce 2 1 120 demo_db

abbrev cash : NewAccount
cash = record { code = "1200"; name = "Cash"; account_type = AccountType.asset; currency = "EUR" }

abbrev cash_row : Account
cash_row = record {
  id = 1000;
  code = "1200";
  name = "Cash";
  account_type = AccountType.asset;
  currency = "EUR";
  is_active = true;
  created_at = 4;
  updated_at = 4;
}

abbrev after_cash : Session
after_cash = (create_account cash 7 start).1

cash_runs : create_account cash 7 start ≡ (ok cash_row, after_cash)
unfolding create_account find_by_code scalar_one_or_none save_account draw insert_account log
cash_runs = refl

create_account-AccountAdded_example : AccountAdded cash 7 start cash_row after_cash
create_account-AccountAdded_example = create_account-AccountAdded cash 7 start cash_runs

-- A token is the claims and the time of expiry, and the text of an id is the id.
abbrev decode : ℕ → Claims ℕ × ℕ → Option (Claims ℕ)
decode now (c, exp) = if ltb now (to_seconds exp) then some c else none

abbrev lib : Libraries (Claims ℕ × ℕ) ℕ
lib = record {
  encode = λ c exp. (c, exp);
  decode = decode;
  uuid_text = λ id. id;
  parse_uuid = λ id. some id;
  checkpw = λ a b. a == b;
  decode-encode = λ c exp now. refl;
  parse-text = λ id. refl;
}

abbrev admin_token : Claims ℕ × ℕ
admin_token = (claims_of lib admin_user, 0 + 30 * 60000000)

login_runs : login lib 30 0 "a@example.com" "" demo_db ≡ ok admin_token
unfolding login find_by_email scalar_one_or_none
login_runs = refl

login-get_current_user_example :
    (u : User) × (find_by_email "a@example.com" demo_db ≡ ok (some u))
    × (lib.checkpw "" u.hashed_password ≡ true)
    × (get_current_user lib 5 admin_token ≡ (
        if ltb 5 (to_seconds (0 + 30 * 60000000)) && u.is_active
        then ok (record { id = u.id; role = u.role; is_active = true })
        else err credentials_exception))
login-get_current_user_example =
    login-get_current_user lib 30 0 5 "a@example.com" "" demo_db login_runs

post_transaction-get_db_example :
    get_db (post_transaction none (ok tt) (err redis_error) sale_eur 7) start ≡ (
      answered_as
          (posted (ok tt) (err redis_error))
          (get_db (create_transaction sale_eur 7) start).0,
      (get_db (create_transaction sale_eur 7) start).1,
    )
post_transaction-get_db_example = post_transaction-get_db (ok tt) (err redis_error) sale_eur 7 start

void_transaction_endpoint-get_db_example :
    get_db (void_transaction_endpoint (err redis_error) 1000 7) later ≡ (
      answered_as (void_answer (err redis_error)) (get_db (voided_or_missing 1000 7) later).0,
      (get_db (voided_or_missing 1000 7) later).1,
    )
void_transaction_endpoint-get_db_example =
    void_transaction_endpoint-get_db (err redis_error) 1000 7 later

abbrev body_line : Direction → EntryBody
body_line side = record { account_id = 10; direction = side; amount = pos 5; currency = "USD" }

abbrev body_usd : TransactionBody
body_usd = record {
  currency_code = none;
  description = "Rent";
  transaction_date = 100;
  entries = body_line Direction.debit ∷ body_line Direction.credit ∷ [];
}

abbrev sale_usd : TransactionCreate
sale_usd = record {
  currency_code = "USD";
  description = "Rent";
  transaction_date = 100;
  entries = line 10 Direction.debit 5 "USD" ∷ line 10 Direction.credit 5 "USD" ∷ [];
}

body_passes : transaction_create body_usd ≡ ok sale_usd
unfolding transaction_create
body_passes = refl

transaction_create-IsRequestOf_example : IsRequestOf body_usd sale_usd
transaction_create-IsRequestOf_example = transaction_create-IsRequestOf body_usd body_passes

-- The tables with the sale of `Runs`.
abbrev sold_db : Db
sold_db = record demo_db { transactions = sold.header ∷ []; entries = sold.entries }

list_entries-pages_example :
    ((r : Entry × Transaction)
      → (entry_matches none none (some 12) none r ≡ true) ↔ IsAsked none none (some 12) none r)
    × IsSameMultiset
        (read_pages none none (some 12) none 1 sold_db 2 0)
        (matching none none (some 12) none 1 sold_db)
    × IsInOrder (read_pages none none (some 12) none 1 sold_db 2 0)
list_entries-pages_example =
    list_entries-pages none none (some 12) none 1 sold_db 2 (omega arith) (refl, tt)
