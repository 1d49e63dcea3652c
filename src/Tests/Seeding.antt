-- ===== src/Tests/Seeding.antt =====
-- The seeding of empty tables, and a database URL.
use payment_ledger_api.Common.{◌≡◌, refl, not, true, some, filter, any}
use payment_ledger_api.Errors.{Result, ok, err}
use payment_ledger_api.Db.{
  Db, empty, insert_user, insert_currency, insert_account, insert_transaction, insert_entry,
  check_entries_balance,
}
use payment_ledger_api.Session.{fire_triggers}
use payment_ledger_api.Ledger.{IsLedger}
use payment_ledger_api.Seed.{Run, seed_user, seed_currency, seed_account, seed_transaction, seed}
use payment_ledger_api.Seed.Once.{seed-once}
use payment_ledger_api.Seed.Url.{
  Text, chars, with_driver, is_sslmode, disables_ssl, parse_database_url,
}
use payment_ledger_api.Seed.Url.Query.{query_of, parse_database_url-query}

abbrev run : Run
run = record { hashed = "hash"; uuid4 = 900; now = 5; today = 120 }

abbrev or_empty : Result Db → Db
or_empty (ok db) = db
or_empty (err e) = empty

abbrev seeded : Db
seeded = or_empty (seed run empty)

seed_runs : seed run empty ≡ ok seeded
unfolding seed seed_user seed_currency seed_account seed_transaction fire_triggers insert_user
    insert_currency insert_account insert_transaction insert_entry check_entries_balance
seed_runs = refl

empty-IsLedger : IsLedger empty
empty-IsLedger = record {
  balanced = λ id. refl;
  linked = tt;
  distinct = tt;
  storable = tt;
  texts = tt;
}

seed-once_example : IsLedger seeded × ((again : Run) → seed again seeded ≡ ok seeded)
seed-once_example = seed-once run empty seed_runs empty-IsLedger

abbrev env : Text
env = chars "postgres://h/db?a=1&sslmode=disable&b=2"

abbrev url : Text
url = chars "postgresql+asyncpg://h/db?a=1&b=2"

url_parsed : parse_database_url env ≡ some (url, true)
unfolding parse_database_url with_driver
url_parsed = refl

parse_database_url-query_example :
    (query_of url ≡ (
      (query_of (with_driver env)).0,
      filter (λ p. not (is_sslmode p)) (query_of (with_driver env)).1,
    ))
    × (true ≡ any disables_ssl (query_of (with_driver env)).1)
parse_database_url-query_example = parse_database_url-query env url_parsed
