-- ===== src/Repositories/Currencies.antt =====
-- app/repositories/currency_repository.py
pub mod Latest
use payment_ledger_api.Common.{
  ℕ, String, Bool, true, ◌&&◌, Option, none, some, List, filter, order_by, page, take, leb, ltb,
  if◌then◌else◌, ◌==◌, nat_eq, string_eq,
}
use payment_ledger_api.Common.Int.{ℤ}
use payment_ledger_api.Model.{Uuid, Date, Currency, ExchangeRate}
use payment_ledger_api.Errors.{Result, err, integrity_error, conflict_error, duplicate_rate}
use payment_ledger_api.Db.{Db, insert_currency, insert_exchange_rate}
use payment_ledger_api.Session.{Action, pure, get, execute, draw, ◌>>=◌, ◌>>◌}
use payment_ledger_api.Repositories.{scalar_one_or_none}

-- A `Currency` and an `ExchangeRate` object before their flush. `rate` is in units of 10 ^ -8, as
-- the column rounds it.
pub record NewCurrency : Type 0 where
  pub code : String
  pub name : String
  pub decimal_places : ℤ

pub record NewExchangeRate : Type 0 where
  pub from_currency_id : Uuid
  pub to_currency_id : Uuid
  pub rate : ℕ
  pub effective_date : Date
  pub created_by_id : Uuid

unfoldable pub save : NewCurrency → Action Currency
save new = do
  id ← draw
  at ← get (λ s. s.started)
  let row : Currency = record {
    id = id;
    code = new.code;
    name = new.name;
    decimal_places = new.decimal_places;
    is_active = true;
    created_at = at;
  }
  execute (insert_currency row)
  pure row

-- `except IntegrityError`: any constraint that fails gives the same conflict.
abbrev pub rate_conflict : Result Db → Result Db
rate_conflict (err integrity_error) = err (conflict_error duplicate_rate)
rate_conflict r = r

unfoldable pub save_exchange_rate : NewExchangeRate → Action ExchangeRate
save_exchange_rate new = do
  id ← draw
  at ← get (λ s. s.started)
  let row : ExchangeRate = record {
    id = id;
    from_currency_id = new.from_currency_id;
    to_currency_id = new.to_currency_id;
    rate = new.rate;
    effective_date = new.effective_date;
    created_by_id = new.created_by_id;
    created_at = at;
  }
  execute (λ db. rate_conflict (insert_exchange_rate row db))
  pure row

-- An optional condition of a query.
abbrev pub optional {ℓ} : {A : Type ℓ} → Option A → (A → Bool) → Bool
optional none test = true
optional (some a) test = test a

abbrev pub rate_matches : (from_id to_id : Option Uuid) → Option Date → ExchangeRate → Bool
rate_matches from_id to_id on x =
    optional from_id (λ i. x.from_currency_id == i)
    && optional to_id (λ i. x.to_currency_id == i)
    && optional on (λ d. x.effective_date == d)

-- `ORDER BY effective_date DESC, id`
abbrev pub rate_first : ExchangeRate → ExchangeRate → Bool
rate_first x y =
    if ltb y.effective_date x.effective_date
    then true
    else (x.effective_date == y.effective_date && leb x.id y.id)

unfoldable pub list_exchange_rates :
    (from_id to_id : Option Uuid) → Option Date → (limit offset : ℕ) → Db → List ExchangeRate
list_exchange_rates from_id to_id on limit offset db =
    page limit offset
      (order_by rate_first (filter (rate_matches from_id to_id on) db.exchange_rates))

-- `list_all`; the order of texts is the database's collation, a parameter.
unfoldable pub list_all :
    (collated : String → String → Bool) → (limit offset : ℕ) → Db → List Currency
list_all collated limit offset db =
    page limit offset (order_by (λ a b. collated a.code b.code) db.currencies)

unfoldable pub find_by_code : String → Db → Result (Option Currency)
find_by_code code db = scalar_one_or_none (filter (λ c. c.code == code) db.currencies)

-- The WHERE clause of `find_exchange_rate`.
abbrev pub applies : (from_id to_id : Uuid) → Date → ExchangeRate → Bool
applies from_id to_id on x =
    x.from_currency_id == from_id && x.to_currency_id == to_id && leb x.effective_date on

-- `ORDER BY effective_date DESC`
abbrev pub later_first : ExchangeRate → ExchangeRate → Bool
later_first x y = leb y.effective_date x.effective_date

unfoldable pub find_exchange_rate :
    (from_id to_id : Uuid) → Date → Db → Result (Option ExchangeRate)
find_exchange_rate from_id to_id on db =
    scalar_one_or_none
      (take 1 (order_by later_first (filter (applies from_id to_id on) db.exchange_rates)))
