-- ===== src/Tests/Requests.antt =====
-- The sale and its void as requests, each in `get_db`, and two that are refused.
use payment_ledger_api.Common.{◌≡◌, refl, some, [], ◌∷◌}
use payment_ledger_api.Errors.{ok, err, validation_error, conflict_error, one_sided, already_voided}
use payment_ledger_api.Model.{Direction}
use payment_ledger_api.Db.{
  insert_transaction, insert_entry, insert_audit_log, check_entries_balance,
}
use payment_ledger_api.Money.{convert_amount_usd, round_to_context}
use payment_ledger_api.Session.{Session, draw, get_db, fire_triggers}
use payment_ledger_api.Repositories.{scalar_one, scalar_one_or_none}
use payment_ledger_api.Repositories.Accounts.{find_active_by_ids}
use payment_ledger_api.Repositories.Currencies.{find_by_code, find_exchange_rate}
use payment_ledger_api.Repositories.Transactions.{
  save, add_all, add_entry, find_by_id_with_entries, mark_voided_if_posted,
}
use payment_ledger_api.Repositories.Audit.{log}
use payment_ledger_api.Services.Transactions.{
  create_transaction, void_transaction, void_found, resolve_usd_conversion_rate, converted_amounts,
  new_entries,
}
use payment_ledger_api.Services.Transactions.Rules.{check_payload}
use payment_ledger_api.Schemas.{TransactionCreate}
use payment_ledger_api.Tests.Demo.{session_on, sale_eur, line}
use payment_ledger_api.Tests.Runs.{start, sold, later, sold_voided, taken_back, after_void}

abbrev pub after_request : Session
after_request = (get_db (create_transaction sale_eur 7) start).1

pub request_runs : get_db (create_transaction sale_eur 7) start ≡ (ok sold, after_request)
unfolding create_transaction resolve_usd_conversion_rate check_payload find_active_by_ids
    find_by_code find_exchange_rate scalar_one_or_none scalar_one converted_amounts new_entries
    convert_amount_usd round_to_context save add_all add_entry insert_transaction insert_entry log
    draw void_transaction void_found find_by_id_with_entries mark_voided_if_posted get_db
    insert_audit_log check_entries_balance fire_triggers
request_runs = refl

abbrev pub after_void_request : Session
after_void_request = (get_db (void_transaction 1000 7) later).1

pub void_request_runs :
    get_db (void_transaction 1000 7) later
    ≡ (ok (some (sold_voided, taken_back)), after_void_request)
unfolding create_transaction resolve_usd_conversion_rate check_payload find_active_by_ids
    find_by_code find_exchange_rate scalar_one_or_none scalar_one converted_amounts new_entries
    convert_amount_usd round_to_context save add_all add_entry insert_transaction insert_entry log
    draw void_transaction void_found find_by_id_with_entries mark_voided_if_posted get_db
    insert_audit_log check_entries_balance fire_triggers
void_request_runs = refl

-- A sale without a credit.
abbrev pub one_sided_sale : TransactionCreate
one_sided_sale = record sale_eur {
  entries = line 12 Direction.debit 1000 "EUR" ∷ line 13 Direction.debit 1000 "EUR" ∷ [];
}

abbrev pub refused : Session
refused = (get_db (create_transaction one_sided_sale 7) start).1

pub sale_refused :
    get_db (create_transaction one_sided_sale 7) start ≡ (err (validation_error one_sided), refused)
unfolding create_transaction resolve_usd_conversion_rate check_payload find_active_by_ids
    find_by_code find_exchange_rate scalar_one_or_none scalar_one converted_amounts new_entries
    convert_amount_usd round_to_context save add_all add_entry insert_transaction insert_entry log
    draw void_transaction void_found find_by_id_with_entries mark_voided_if_posted get_db
    insert_audit_log check_entries_balance fire_triggers
sale_refused = refl

abbrev pub void_refused : Session
void_refused = (get_db (void_transaction 1000 8) (session_on after_void.db)).1

pub void_is_refused :
    get_db (void_transaction 1000 8) (session_on after_void.db)
    ≡ (err (conflict_error (already_voided 1000)), void_refused)
unfolding create_transaction resolve_usd_conversion_rate check_payload find_active_by_ids
    find_by_code find_exchange_rate scalar_one_or_none scalar_one converted_amounts new_entries
    convert_amount_usd round_to_context save add_all add_entry insert_transaction insert_entry log
    draw void_transaction void_found find_by_id_with_entries mark_voided_if_posted get_db
    insert_audit_log check_entries_balance fire_triggers
void_is_refused = refl
