-- ===== src/Tests/Witnesses.antt =====
-- The theorems on the ledger, at the sale and its void.
use payment_ledger_api.Common.{
  ◌*◌, ◌+◌, ◌≡◌, refl, some, arith, ◌≤◌, ltb, if◌then◌else◌, ◌↔◌, length, ◌≢◌, All, [], ◌∷◌,
}
use payment_ledger_api.Common.Int.{◌+ℤ◌}
use payment_ledger_api.Money.{Decimal, convert_amount_usd, numeric8, bigint_limit}
use payment_ledger_api.Money.Rounding.{IsHalfUp, convert_iff}
use payment_ledger_api.Model.{Direction, TransactionStatus}
use payment_ledger_api.Errors.{ok, err, conflict_error, already_voided, data_error}
use payment_ledger_api.Session.{Session, fire_triggers}
use payment_ledger_api.Repositories.Accounts.{calculate_balance}
use payment_ledger_api.Repositories.Transactions.{Loaded, find_by_id_with_entries}
use payment_ledger_api.Services.Transactions.{
  create_transaction, as_voided, resolve_usd_conversion_rate, void_transaction,
}
use payment_ledger_api.Ledger.{IsLedger}
use payment_ledger_api.Ledger.Effect.{own_balance}
use payment_ledger_api.Ledger.Requests.{create_transaction-IsLedger, void_transaction-IsLedger}
use payment_ledger_api.Ledger.Reversal.{
  create_transaction-balance, void_transaction-balance, void_undoes_create,
}
use payment_ledger_api.Ledger.Lifecycle.{
  void_transaction-posted, void_transaction-conflict, void_transaction-again,
}
use payment_ledger_api.Ledger.Conversion.{AllRecorded, create_transaction-records}
use payment_ledger_api.Ledger.FxGap.{usd_sum, create_transaction-fx_gap}
use payment_ledger_api.Ledger.Triggers.{IsBalancedIn, get_db-guards}
use payment_ledger_api.Ledger.Overflow.{create_transaction-fire_triggers}
use payment_ledger_api.Services.Transactions.Rules.{amount_sum}
use payment_ledger_api.Ledger.Committed.{
  IsPublished, get_db-create_transaction, get_db-void_transaction, create_transaction-rollback,
  void_transaction-rollback,
}
use payment_ledger_api.Services.Transactions.Create.{created_log}
use payment_ledger_api.Services.Transactions.Void.{reversal_log, void_log}
use payment_ledger_api.Tests.Demo.{demo_db, sale_eur, session_on}
use payment_ledger_api.Tests.Runs.{
  start, sold, after_sale, sale_runs, demo_db-IsLedger, after_sale-IsLedger, later, sold_voided,
  taken_back, after_void, void_runs, sold_voided-found,
}
use payment_ledger_api.Tests.Requests.{
  after_request, request_runs, after_void_request, void_request_runs, one_sided_sale, refused,
  sale_refused, void_refused, void_is_refused,
}

get_db-create_transaction_example :
    IsPublished (created_log 7 sold ∷ []) start after_request
    × (find_by_id_with_entries 1000 after_request.committed ≡ ok (some sold))
get_db-create_transaction_example =
    get_db-create_transaction sale_eur 7 start request_runs demo_db-IsLedger refl

get_db-void_transaction_example :
    (found : Loaded) × (find_by_id_with_entries 1000 later.db ≡ ok (some found))
    × IsPublished
        (reversal_log 7 sold_voided taken_back ∷ void_log 7 found sold_voided taken_back ∷ [])
        later
        after_void_request
    × (find_by_id_with_entries 1000 after_void_request.committed ≡ ok (some sold_voided))
get_db-void_transaction_example =
    get_db-void_transaction 1000 7 later void_request_runs after_sale-IsLedger refl

create_transaction-rollback_example :
    (refused.committed ≡ demo_db)
    × (refused.db ≡ demo_db)
    × (refused.added ≡ [])
    × (refused.deferred ≡ [])
create_transaction-rollback_example =
    create_transaction-rollback one_sided_sale 7 start sale_refused

void_transaction-rollback_example :
    (void_refused.committed ≡ after_void.db)
    × (void_refused.db ≡ after_void.db)
    × (void_refused.added ≡ [])
    × (void_refused.deferred ≡ [])
void_transaction-rollback_example =
    void_transaction-rollback 1000 8 (session_on after_void.db) void_is_refused

create_transaction-fire_triggers_example : fire_triggers after_sale.deferred after_sale.db ≡ (
    if ltb (amount_sum Direction.debit sale_eur.entries) bigint_limit
    then ok tt
    else err data_error)
create_transaction-fire_triggers_example =
    create_transaction-fire_triggers sale_eur 7 start sale_runs demo_db-IsLedger refl

get_db-guards_example :
    (s₁ : Session) × (create_transaction sale_eur 7 start ≡ (ok sold, s₁))
    × All (IsBalancedIn after_request.committed.entries) s₁.deferred
get_db-guards_example = get_db-guards (create_transaction sale_eur 7) start request_runs

create_transaction-IsLedger_example : IsLedger after_sale.db
create_transaction-IsLedger_example =
    create_transaction-IsLedger sale_eur 7 start sale_runs demo_db-IsLedger

void_transaction-IsLedger_example : IsLedger after_void.db
void_transaction-IsLedger_example =
    void_transaction-IsLedger 1000 7 later void_runs after_sale-IsLedger

create_transaction-balance_example :
    calculate_balance 12 120 after_sale.db
    ≡ calculate_balance 12 120 demo_db +ℤ own_balance 12 120 sold
create_transaction-balance_example =
    create_transaction-balance sale_eur 7 start 12 120 sale_runs demo_db-IsLedger

void_transaction-balance_example :
    calculate_balance 12 120 after_void.db +ℤ own_balance 12 120 sold_voided
    ≡ calculate_balance 12 120 after_sale.db
void_transaction-balance_example =
    void_transaction-balance 1000 7 later 12 120 void_runs after_sale-IsLedger

void_undoes_create_example :
    calculate_balance 12 120 after_void.db ≡ calculate_balance 12 120 demo_db
void_undoes_create_example =
    void_undoes_create sale_eur 7 7 start later 12 120 sale_runs refl void_runs demo_db-IsLedger

void_transaction-posted_example :
    (found : Loaded) × (find_by_id_with_entries 1000 later.db ≡ ok (some found))
    × (found.status ≡ TransactionStatus.posted)
    × (sold_voided ≡ as_voided found)
void_transaction-posted_example = void_transaction-posted 1000 7 later void_runs

voided_is_not_posted : sold_voided.status ≢ TransactionStatus.posted
voided_is_not_posted h = cc

void_transaction-conflict_example :
    ((void_transaction 1000 7 after_void).0 ≡ err (conflict_error (already_voided 1000)))
    × ((void_transaction 1000 7 after_void).1.db ≡ after_void.db)
void_transaction-conflict_example =
    void_transaction-conflict 1000 7 after_void sold_voided-found voided_is_not_posted

void_transaction-again_example :
    ((void_transaction 1000 8 after_void).0 ≡ err (conflict_error (already_voided 1000)))
    × ((void_transaction 1000 8 after_void).1.db ≡ after_void.db)
void_transaction-again_example = void_transaction-again 1000 7 8 later after_void void_runs refl

create_transaction-records_example :
    (rate : Decimal) × (resolve_usd_conversion_rate "EUR" 120 start ≡ (ok rate, start))
    × AllRecorded rate sale_eur.entries sold.entries
create_transaction-records_example =
    create_transaction-records sale_eur 7 start sale_runs demo_db-IsLedger

create_transaction-fx_gap_example :
    (2 * usd_sum Direction.debit sold.entries
      ≤ 2 * usd_sum Direction.credit sold.entries + length sale_eur.entries)
    × (2 * usd_sum Direction.credit sold.entries
        ≤ 2 * usd_sum Direction.debit sold.entries + length sale_eur.entries)
create_transaction-fx_gap_example =
    create_transaction-fx_gap sale_eur 7 start sale_runs demo_db-IsLedger

convert_iff_example :
    (convert_amount_usd 1005 (numeric8 110000000) ≡ some 1106) ↔ IsHalfUp 1005 110000000 1106
convert_iff_example = convert_iff 1005 110000000 1106 (omega arith)
