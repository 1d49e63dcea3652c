-- ===== src/Routes/Endpoints.antt =====
-- The routes of app/api/v1/routes on a database session, each behind the role that it depends on.
-- `get_account_balance` is in BalanceCache and `login` in Auth; neither writes to the tables.
use payment_ledger_api.Common.{
  ℕ, String, Bool, ◌&&◌, Option, none, some, List, ltb, leb, if◌then◌else◌,
}
use payment_ledger_api.Model.{
  Uuid, Date, Timestamp, Account, Currency, ExchangeRate, Entry, Transaction, AuditLog, User,
  UserRole,
}
use payment_ledger_api.Errors.{Result, ok, err, http_exception, invalid_body}
use payment_ledger_api.Schemas.{TransactionCreate}
use payment_ledger_api.Schemas.Read.{TransactionRead, VoidResponse}
use payment_ledger_api.Idempotency.{Context}
use payment_ledger_api.Money.{Decimal, rounded8}
use payment_ledger_api.Db.{Db}
use payment_ledger_api.Session.{Action, pure, lift, query, ◌>>=◌}
use payment_ledger_api.Repositories.Accounts.{NewAccount, list_all as list_accounts_by_code}
use payment_ledger_api.Repositories.Currencies.{
  NewCurrency, NewExchangeRate, list_all as list_currencies_by_code, list_exchange_rates,
}
use payment_ledger_api.Repositories.Ledger.{list_entries, list_transactions, list_logs}
use payment_ledger_api.Repositories.Transactions.{Loaded}
use payment_ledger_api.Services.Admin.{
  create_account, create_currency, create_exchange_rate, create_user,
}
use payment_ledger_api.Auth.{TokenUser, require_admin, require_auditor_or_admin}
use payment_ledger_api.Routes.{post_transaction, void_transaction_endpoint}

-- `Query(ge=1, le=100)` of `limit`; an offset is a natural number.
abbrev pub limit_in_range : ℕ → Result (Unit {0})
limit_in_range limit =
    if leb 1 limit && leb limit 100 then ok tt else err (http_exception 422 invalid_body)

-- `Field(gt=Decimal("0"))` of the rate, which comes with as many places as it was sent with.
abbrev pub rate_positive : Decimal → Result (Unit {0})
rate_positive rate = if ltb 0 rate.coefficient then ok tt else err (http_exception 422 invalid_body)

pub data Request : Type 0 where
  accounts_page : (limit offset : ℕ) → Request
  new_account : NewAccount → Request
  audit_logs_page :
      Option String
      → Option Uuid
      → (from_dt to_dt : Option Timestamp) → (limit offset : ℕ) → Request
  currencies_page : (limit offset : ℕ) → Request
  new_currency : NewCurrency → Request
  rates_page : (from_id to_id : Option Uuid) → Option Date → (limit offset : ℕ) → Request
  new_rate : (from_id to_id : Uuid) → Decimal → Date → Request
  ledger_page :
      (from_date to_date : Option Date) → Option Uuid → Option String → (limit offset : ℕ) → Request
  transactions_page : (limit offset : ℕ) → Request
  post : TransactionCreate → Request
  void : Uuid → Request
  registration : (email password : String) → Request

pub data Response : Type 0 where
  accounts : List Account → Response
  account : Account → Response
  audit_logs : List AuditLog → Response
  currencies : List Currency → Response
  currency : Currency → Response
  exchange_rates : List ExchangeRate → Response
  exchange_rate : ExchangeRate → Response
  entries : List (Entry × Transaction) → Response
  transactions : List Loaded → Response
  posted : (status : ℕ) → TransactionRead → Response
  voided : VoidResponse → Response
  user : User → Response

-- The dependencies `AdminUser`, `AuditorOrAdminUser` and `CurrentUser` on the caller, whom
-- `get_current_user` gives or refuses.
abbrev pub admin_user : Result TokenUser → Action TokenUser
admin_user caller = lift caller >>= λ u. lift (require_admin u)

abbrev pub auditor_or_admin_user : Result TokenUser → Action TokenUser
auditor_or_admin_user caller = lift caller >>= λ u. lift (require_auditor_or_admin u)

-- The column of the rate rounds it to eight places, a half upwards.
abbrev pub rate_by : TokenUser → (from_id to_id : Uuid) → Decimal → Date → NewExchangeRate
rate_by u from_id to_id rate on = record {
  from_currency_id = from_id;
  to_currency_id = to_id;
  rate = rounded8 rate;
  effective_date = on;
  created_by_id = u.id;
}

-- A list that is paged.
abbrev pub paged : ℕ → (Db → Response) → Action Response
paged limit rows = lift (limit_in_range limit) >>= λ _. query rows

-- The order of texts is the database's collation, a parameter.
abbrev pub list_accounts :
    (collated : String → String → Bool) → Result TokenUser → (limit offset : ℕ) → Action Response
list_accounts collated caller limit offset = auditor_or_admin_user caller >>= λ _.
    paged limit (λ db. Response.accounts (list_accounts_by_code collated limit offset db))

-- `create_account` of routes/accounts.py
abbrev pub post_account : Result TokenUser → NewAccount → Action Response
post_account caller payload =
    admin_user caller >>= λ u. create_account payload u.id >>= λ a. pure (Response.account a)

abbrev pub get_audit_logs :
    Result TokenUser
    → Option String
    → Option Uuid
    → (from_dt to_dt : Option Timestamp) → (limit offset : ℕ) → Action Response
get_audit_logs caller entity_type entity_id from_dt to_dt limit offset = admin_user caller >>= λ _.
    paged limit
      (λ db. Response.audit_logs (list_logs entity_type entity_id from_dt to_dt limit offset db))

abbrev pub list_currencies :
    (collated : String → String → Bool) → Result TokenUser → (limit offset : ℕ) → Action Response
list_currencies collated caller limit offset = lift caller >>= λ _.
    paged limit (λ db. Response.currencies (list_currencies_by_code collated limit offset db))

abbrev pub post_currency : Result TokenUser → NewCurrency → Action Response
post_currency caller payload =
    admin_user caller >>= λ u. create_currency payload u.id >>= λ c. pure (Response.currency c)

-- `list_exchange_rates` of routes/exchange_rates.py
abbrev pub get_rates :
    Result TokenUser
    → (from_id to_id : Option Uuid) → Option Date
    → (limit offset : ℕ) → Action Response
get_rates caller from_id to_id on limit offset = lift caller >>= λ _.
    paged limit
      (λ db. Response.exchange_rates (list_exchange_rates from_id to_id on limit offset db))

abbrev pub post_exchange_rate :
    Result TokenUser → (from_id to_id : Uuid) → Decimal → Date → Action Response
post_exchange_rate caller from_id to_id rate on = admin_user caller >>= λ u.
    lift (rate_positive rate) >>= λ _.
    create_exchange_rate (rate_by u from_id to_id rate on) >>= λ x. pure (Response.exchange_rate x)

abbrev pub get_ledger :
    Result TokenUser
    → (from_date to_date : Option Date) → Option Uuid
    → Option String
    → (limit offset : ℕ) → Action Response
get_ledger caller from_date to_date account_id currency_code limit offset =
    auditor_or_admin_user caller >>= λ _. paged limit (λ db.
      Response.entries (list_entries from_date to_date account_id currency_code limit offset db))

-- `list_transactions` of routes/transactions.py
abbrev pub get_transactions : Result TokenUser → (limit offset : ℕ) → Action Response
get_transactions caller limit offset = auditor_or_admin_user caller >>= λ _.
    paged limit (λ db. Response.transactions (list_transactions limit offset db))

-- The hash of a password is a parameter. Anybody may register, as an auditor.
abbrev pub register_user :
    (get_password_hash : String → String) → (email password : String) → Action Response
register_user get_password_hash email password =
    create_user get_password_hash email password UserRole.auditor >>= λ u. pure (Response.user u)

-- What becomes of a request's calls to Redis: what `check_idempotency` yields or raises, which is
-- resolved before the role, and what `_invalidate_balance_cache` and `idempotency.cache` raise.
pub record RedisOutcome : Type 0 where
  pub idempotency : Result (Context TransactionRead)
  pub invalidated : Result (Unit {0})
  pub cached : Result (Unit {0})

-- `idempotency.replay`
abbrev pub replay_of : Context TransactionRead → Option TransactionRead
replay_of (Context.replayed body) = some body
replay_of Context.unchecked = none
replay_of (Context.admitted redis_key fingerprint) = none

-- A post behind its role.
abbrev pub admin_post :
    Result TokenUser → RedisOutcome → TransactionCreate → Context TransactionRead → Action Response
admin_post caller redis payload ctx = admin_user caller >>= λ u.
    post_transaction (replay_of ctx) redis.invalidated redis.cached payload u.id >>= λ r.
    pure (Response.posted r.0 r.1)

-- The routes that `api_router` includes, but for those two.
module _ (collated : String → String → Bool) (get_password_hash : String → String)
    (redis : RedisOutcome) where
  unfoldable pub serve : Result TokenUser → Request → Action Response
  serve caller (Request.accounts_page limit offset) = list_accounts collated caller limit offset
  serve caller (Request.new_account payload) = post_account caller payload
  serve caller (Request.audit_logs_page entity_type entity_id from_dt to_dt limit offset) =
      get_audit_logs caller entity_type entity_id from_dt to_dt limit offset
  serve caller (Request.currencies_page limit offset) = list_currencies collated caller limit offset
  serve caller (Request.new_currency payload) = post_currency caller payload
  serve caller (Request.rates_page from_id to_id on limit offset) =
      get_rates caller from_id to_id on limit offset
  serve caller (Request.new_rate from_id to_id rate on) =
      post_exchange_rate caller from_id to_id rate on
  serve caller (Request.ledger_page from_date to_date account_id currency_code limit offset) =
      get_ledger caller from_date to_date account_id currency_code limit offset
  serve caller (Request.transactions_page limit offset) = get_transactions caller limit offset
  serve caller (Request.post payload) =
      lift redis.idempotency >>= λ ctx. admin_post caller redis payload ctx
  serve caller (Request.void id) = admin_user caller >>= λ u.
      void_transaction_endpoint redis.invalidated id u.id >>= λ p. pure (Response.voided p)
  serve caller (Request.registration email password) =
      register_user get_password_hash email password
