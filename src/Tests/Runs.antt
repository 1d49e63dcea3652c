-- ===== src/Tests/Runs.antt =====
-- A sale that is created, and then voided in a later session.
use payment_ledger_api.Common.{◌+◌, ◌≡◌, refl, some, [], ◌∷◌}
use payment_ledger_api.Errors.{ok}
use payment_ledger_api.Model.{Direction}
use payment_ledger_api.Db.{insert_transaction, insert_entry}
use payment_ledger_api.Money.{convert_amount_usd, round_to_context}
use payment_ledger_api.Session.{Session, draw}
use payment_ledger_api.Repositories.{scalar_one, scalar_one_or_none}
use payment_ledger_api.Repositories.Accounts.{find_active_by_ids}
use payment_ledger_api.Repositories.Currencies.{find_by_code, find_exchange_rate}
use payment_ledger_api.Repositories.Transactions.{
  Loaded, transaction_row, entry_row, save, add_all, add_entry, find_by_id_with_entries,
  mark_voided_if_posted,
}
use payment_ledger_api.Repositories.Audit.{log}
use payment_ledger_api.Services.Transactions.{
  create_transaction, void_transaction, void_found, resolve_usd_conversion_rate, converted_amounts,
  new_entries, as_voided, reversal_of,
}
use payment_ledger_api.Services.Transactions.Rules.{check_payload}
use payment_ledger_api.Services.Transactions.Create.{posted_header}
use payment_ledger_api.Ledger.{IsLedger}
use payment_ledger_api.Ledger.Requests.{create_transaction-IsLedger}
use payment_ledger_api.Tests.Demo.{demo_db, session_on, sale_eur}

abbrev pub start : Session
start = session_on demo_db

abbrev pub sold : Loaded
sold = record {
  header = transaction_row 1000 4 (posted_header sale_eur start);
  entries =
      entry_row 1001 1000 (record {
        account_id = 12;
        direction = Direction.debit;
        amount = 1000;
        currency = "EUR";
        converted_amount_usd = 1100;
      })
      ∷ entry_row 1002 1000 (record {
        account_id = 13;
        direction = Direction.credit;
        amount = 1000;
        currency = "EUR";
        converted_amount_usd = 1100;
      })
      ∷ [];
}

abbrev pub after_sale : Session
after_sale = (create_transaction sale_eur 7 start).1

pub sale_runs : create_transaction sale_eur 7 start ≡ (ok sold, after_sale)
unfolding create_transaction resolve_usd_conversion_rate check_payload find_active_by_ids
    find_by_code find_exchange_rate scalar_one_or_none scalar_one converted_amounts new_entries
    convert_amount_usd round_to_context save add_all add_entry insert_transaction insert_entry log
    draw
sale_runs = refl

pub demo_db-IsLedger : IsLedger demo_db
demo_db-IsLedger = record {
  balanced = λ id. refl;
  linked = tt;
  distinct = tt;
  storable = tt;
  texts = tt;
}

pub after_sale-IsLedger : IsLedger after_sale.db
after_sale-IsLedger = create_transaction-IsLedger sale_eur 7 start sale_runs demo_db-IsLedger

-- The session of the void.
abbrev pub later : Session
later = record (session_on after_sale.db) { uuid4 = λ n. n + 2000 }

abbrev pub sold_voided : Loaded
sold_voided = as_voided sold

abbrev pub taken_back : Loaded
taken_back = record {
  header = transaction_row 2000 4 (reversal_of sold_voided 5);
  entries =
      entry_row 2001 2000 (record {
        account_id = 12;
        direction = Direction.credit;
        amount = 1000;
        currency = "EUR";
        converted_amount_usd = 1100;
      })
      ∷ entry_row 2002 2000 (record {
        account_id = 13;
        direction = Direction.debit;
        amount = 1000;
        currency = "EUR";
        converted_amount_usd = 1100;
      })
      ∷ [];
}

abbrev pub after_void : Session
after_void = (void_transaction 1000 7 later).1

pub void_runs : void_transaction 1000 7 later ≡ (ok (some (sold_voided, taken_back)), after_void)
unfolding create_transaction resolve_usd_conversion_rate check_payload find_active_by_ids
    find_by_code find_exchange_rate scalar_one_or_none scalar_one converted_amounts new_entries
    convert_amount_usd round_to_context save add_all add_entry insert_transaction insert_entry log
    draw void_transaction void_found find_by_id_with_entries mark_voided_if_posted
void_runs = refl

pub sold_voided-found : find_by_id_with_entries 1000 after_void.db ≡ ok (some sold_voided)
unfolding create_transaction resolve_usd_conversion_rate check_payload find_active_by_ids
    find_by_code find_exchange_rate scalar_one_or_none scalar_one converted_amounts new_entries
    convert_amount_usd round_to_context save add_all add_entry insert_transaction insert_entry log
    draw void_transaction void_found find_by_id_with_entries mark_voided_if_posted
sold_voided-found = refl
