-- ===== src/Tests/History.antt =====
-- The theorems on what is answered and on what is kept, at the sale of `Runs` and its void.
use mathlib.Core.Path.{ap₂}
use payment_ledger_api.Common.{
  ℕ, ◌+◌, ◌<◌, ◌≡◌, ◌↔◌, refl, some, ◌||◌, false, All, arith, ap, ◌==◌, nat_eq,
}
use payment_ledger_api.Model.{Uuid, Direction}
use payment_ledger_api.Errors.{ok}
use payment_ledger_api.Money.{numeric8, convert_amount_usd, round_to_context}
use payment_ledger_api.Session.{Session}
use payment_ledger_api.Repositories.{scalar_one, scalar_one_or_none}
use payment_ledger_api.Repositories.Currencies.{find_by_code, find_exchange_rate}
use payment_ledger_api.Repositories.Transactions.{Loaded}
use payment_ledger_api.Repositories.Transactions.Returns.{IsFresh}
use payment_ledger_api.Services.Transactions.{
  create_transaction, void_transaction, resolve_usd_conversion_rate,
}
use payment_ledger_api.Services.Transactions.Rules.{check_payload}
use payment_ledger_api.Services.Transactions.Postable.{IsPostable, check_payload-IsPostable}
use payment_ledger_api.Services.Transactions.Complete.{AreDistinctAccounts, check_payload_iff}
use payment_ledger_api.Services.Transactions.Returns.{
  AreKnownCurrencies, IsPayable, create_transaction-returns,
}
use payment_ledger_api.Ledger.{IsLedger}
use payment_ledger_api.Ledger.Grows.{Grows}
use payment_ledger_api.Ledger.History.{Reaches, Step, after, Reaches-Grows}
use payment_ledger_api.Ledger.Returns.{void_transaction-returns}
use payment_ledger_api.Tests.Demo.{demo_db, session_on, sale_eur, line}
use payment_ledger_api.Repositories.Accounts.{find_active_by_ids}
use payment_ledger_api.Repositories.Transactions.{save, add_all, add_entry}
use payment_ledger_api.Repositories.Audit.{log}
use payment_ledger_api.Session.{draw}
use payment_ledger_api.Db.{insert_transaction, insert_entry}
use payment_ledger_api.Services.Transactions.{converted_amounts, new_entries}
use payment_ledger_api.Ledger.Returns.{IsReferring}
use payment_ledger_api.Ledger.Reversal.{create_transaction-find}
use payment_ledger_api.Tests.Runs.{start, later, sale_runs, demo_db-IsLedger, after_sale-IsLedger}
use payment_ledger_api.Tests.Requests.{after_request}

-- The session of the void.
abbrev second : Session
second = record (session_on after_request.committed) { uuid4 = λ n. n + 2000 }

sale_and_void : Reaches demo_db (after (void_transaction 1000 7) second)
sale_and_void =
    Reaches.next
      (Reaches.next Reaches.here (
        Step.post sale_eur 7 start
          (record { sees = refl; committed = refl; added = refl; deferred = refl })))
      (Step.void 1000 7 second
        (record { sees = refl; committed = refl; added = refl; deferred = refl }))

Reaches-Grows_example :
    IsLedger (after (void_transaction 1000 7) second)
    × Grows demo_db (after (void_transaction 1000 7) second)
Reaches-Grows_example = Reaches-Grows sale_and_void demo_db-IsLedger

sale_passes : check_payload sale_eur demo_db ≡ ok tt
unfolding check_payload find_active_by_ids
sale_passes = refl

two_accounts : AreDistinctAccounts demo_db.accounts
two_accounts = (refl, (refl, (refl, (refl, tt))))

check_payload_iff_example : (check_payload sale_eur demo_db ≡ ok tt) ↔ IsPostable sale_eur demo_db
check_payload_iff_example = check_payload_iff sale_eur demo_db two_accounts

known : AreKnownCurrencies demo_db
known = (refl, (refl, (refl, (refl, tt))))

start-IsFresh : IsFresh start.uuid4 start.draws demo_db
start-IsFresh = record {
  transaction = λ n h. refl;
  entry = λ n h. refl;
  distinct = λ m n h. omega (arith, h);
}

rate_found : resolve_usd_conversion_rate "EUR" 120 start ≡ (ok (numeric8 110000000), start)
unfolding resolve_usd_conversion_rate find_by_code find_exchange_rate scalar_one_or_none scalar_one
rate_found = refl

IsPayable-by :
    (side : Direction) (id : Uuid) → IsPayable (numeric8 110000000) (line id side 1000 "EUR")
unfolding convert_amount_usd round_to_context
IsPayable-by side id = record {
  positive = omega arith;
  amount_fits = omega arith;
  usd = 1100;
  converts = refl;
  usd_fits = omega arith;
}

create_transaction-returns_example :
    (loaded : Loaded) × (s' : Session) × (create_transaction sale_eur 7 start ≡ (ok loaded, s'))
create_transaction-returns_example =
    create_transaction-returns sale_eur 7 start (numeric8 110000000) two_accounts known
      start-IsFresh refl (check_payload-IsPostable sale_eur demo_db sale_passes) rate_found
      (IsPayable-by Direction.debit 12, (IsPayable-by Direction.credit 13, tt))

below : (a n : ℕ) → a < 2000 → (a == n + 2000) ≡ false
below a n h = ground arith

later-IsFresh : IsFresh later.uuid4 later.draws later.db
unfolding create_transaction resolve_usd_conversion_rate check_payload find_active_by_ids
    find_by_code find_exchange_rate scalar_one_or_none scalar_one converted_amounts new_entries
    convert_amount_usd round_to_context save add_all add_entry insert_transaction insert_entry log
    draw
later-IsFresh = record {
  transaction = λ n h. ap (λ b. b || false) (below 1000 n (omega arith));
  entry = λ n h.
      ap₂ (λ b c. b || (c || false)) (below 1001 n (omega arith)) (below 1002 n (omega arith));
  distinct = λ m n h. omega (arith, h);
}

later_refers : All (IsReferring later.db.accounts later.db.currencies) later.db.entries
unfolding create_transaction resolve_usd_conversion_rate check_payload find_active_by_ids
    find_by_code find_exchange_rate scalar_one_or_none scalar_one converted_amounts new_entries
    convert_amount_usd round_to_context save add_all add_entry insert_transaction insert_entry log
    draw
later_refers = ((refl, refl), ((refl, refl), tt))

void_transaction-returns_example :
    (original : Loaded) × (reversal : Loaded) × (s' : Session) × (void_transaction 1000 7 later
      ≡ (ok (some (original, reversal)), s'))
void_transaction-returns_example =
    void_transaction-returns 1000 7 later after_sale-IsLedger later_refers later-IsFresh
      (create_transaction-find sale_eur 7 start sale_runs) refl
