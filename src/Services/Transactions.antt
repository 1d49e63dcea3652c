-- ===== src/Services/Transactions.antt =====
-- app/services/transaction_service.py: the whole of `create_transaction` and `void_transaction`,
-- statement by statement. `Rules` has the checks that come before any write.
pub mod Rules
pub mod Postable
pub mod Complete
pub mod Returns
pub mod Create
pub mod Void
use payment_ledger_api.Common.{
  ℕ, String, Option, none, some, List, [], ◌∷◌, map, ◌==◌, string_eq, if◌then◌else◌,
}
use Prim.Native.String.{◌++◌ as str_append}
use payment_ledger_api.Money.{Decimal, decimal_one, numeric8, convert_amount_usd}
use payment_ledger_api.Model.{
  Uuid, Date, Direction, TransactionStatus, status_value, Entry, string, uuid, date, Snapshot,
}
use payment_ledger_api.Errors.{
  Error, Result, ok, err, validation_error, conflict_error, invalid_operation, value_error,
  unknown_currency, no_base_currency, no_exchange_rate, already_voided,
}
use payment_ledger_api.Schemas.{EntryCreate, TransactionCreate}
use payment_ledger_api.Session.{Action, pure, lift, get, ◌>>=◌, ◌>>◌}
use payment_ledger_api.Repositories.Currencies.{find_by_code, find_exchange_rate}
use payment_ledger_api.Repositories.Transactions.{
  NewTransaction, NewEntry, Loaded, save, find_by_id_with_entries, mark_voided_if_posted,
}
use payment_ledger_api.Repositories.Audit.{log}
use Rules.{check_payload, base_currency}

-- What a query returned that may have found nothing.
abbrev pub found_or {ℓ} : {A : Type ℓ} → Error → Option A → Result A
found_or e none = err e
found_or e (some a) = ok a

-- `_resolve_usd_conversion_rate`: the lookups behind its early return for the base currency.
unfoldable pub lookup_rate : String → Date → Action Decimal
lookup_rate code on = do
  db ← get (λ s. s.db)
  from_found ← lift (find_by_code code db)
  from_currency ← lift (found_or (validation_error (unknown_currency code)) from_found)
  to_found ← lift (find_by_code base_currency db)
  to_currency ← lift (found_or (validation_error no_base_currency) to_found)
  rate_found ← lift (find_exchange_rate from_currency.id to_currency.id on db)
  exchange_rate ← lift (found_or (validation_error (no_exchange_rate code on)) rate_found)
  pure (numeric8 exchange_rate.rate)

unfoldable pub resolve_usd_conversion_rate : String → Date → Action Decimal
unfolding lookup_rate
resolve_usd_conversion_rate code on =
    if code == base_currency then pure decimal_one else lookup_rate code on

-- `[_convert_amount_usd(entry.amount, conversion_rate) for entry in payload.entries]`
unfoldable pub converted_amounts : List EntryCreate → Decimal → Result (List ℕ)
converted_amounts [] rate = ok []
converted_amounts (e ∷ es) rate = elim (convert_amount_usd e.amount rate) [
  | none ↦ err invalid_operation
  | some usd ↦ elim (converted_amounts es rate) [ ok rest ↦ ok (usd ∷ rest) | err x ↦ err x ]
]

abbrev pub new_entry : EntryCreate → ℕ → NewEntry
new_entry e usd = record {
  account_id = e.account_id;
  direction = e.direction;
  amount = e.amount;
  currency = e.currency;
  converted_amount_usd = usd;
}

-- `zip(payload.entries, converted_amounts, strict=True)`
unfoldable pub new_entries : List EntryCreate → List ℕ → Result (List NewEntry)
new_entries [] [] = ok []
new_entries (e ∷ es) (usd ∷ rest) = elim (new_entries es rest) [
  | ok more ↦ ok (new_entry e usd ∷ more)
  | err x ↦ err x
]
new_entries _ _ = err value_error

abbrev pub created_snapshot : Loaded → Snapshot
created_snapshot t =
    ("id", uuid t.id)
    ∷ ("description", string t.description)
    ∷ ("status", string (status_value t.status))
    ∷ ("transaction_date", date t.transaction_date)
    ∷ []

unfoldable pub create_transaction : TransactionCreate → Uuid → Action Loaded
create_transaction payload user_id = do
  db ← get (λ s. s.db)
  lift (check_payload payload db)
  posted_at ← get (λ s. s.now)
  rate ← resolve_usd_conversion_rate payload.currency_code payload.transaction_date
  converted ← lift (converted_amounts payload.entries rate)
  entries ← lift (new_entries payload.entries converted)
  loaded ←
      save
        (record {
          description = payload.description;
          transaction_date = payload.transaction_date;
          status = TransactionStatus.posted;
          posted_at = some posted_at;
          metadata = none;
        })
        entries
  log user_id "transaction" loaded.id "create" none (some (created_snapshot loaded))
  pure loaded

abbrev pub opposite : Direction → Direction
opposite Direction.debit = Direction.credit
opposite Direction.credit = Direction.debit

abbrev pub reversal_entry : Entry → NewEntry
reversal_entry e = record {
  account_id = e.account_id;
  direction = opposite e.direction;
  amount = e.amount;
  currency = e.currency;
  converted_amount_usd = e.converted_amount_usd;
}

abbrev pub reversal_of : Loaded → ℕ → NewTransaction
reversal_of original posted_at = record {
  description = str_append "Reversal of: " original.description;
  transaction_date = original.transaction_date;
  status = TransactionStatus.posted;
  posted_at = some posted_at;
  metadata = some original.id;
}

-- The in-memory object after `original.status = TransactionStatus.VOIDED`.
abbrev pub as_voided : Loaded → Loaded
as_voided t = record t { header = record t.header { status = TransactionStatus.voided } }

abbrev pub reversal_snapshot : Loaded → Uuid → Snapshot
reversal_snapshot reversal original_id =
    ("id", uuid reversal.id)
    ∷ ("description", string reversal.description)
    ∷ ("status", string (status_value reversal.status))
    ∷ ("reversal_of", uuid original_id)
    ∷ []

abbrev pub before_void_snapshot : Loaded → Snapshot
before_void_snapshot t =
    ("id", uuid t.id)
    ∷ ("status", string (status_value t.status))
    ∷ ("description", string t.description)
    ∷ ("transaction_date", date t.transaction_date)
    ∷ []

abbrev pub after_void_snapshot : Loaded → Uuid → Snapshot
after_void_snapshot t reversal_id =
    ("id", uuid t.id)
    ∷ ("status", string (status_value t.status))
    ∷ ("reversal_transaction_id", uuid reversal_id)
    ∷ []

-- What follows the query of `void_transaction` when it found the transaction.
unfoldable pub void_found : Loaded → Uuid → Uuid → Action (Loaded × Loaded)
void_found found transaction_id user_id = do
  voided ← mark_voided_if_posted transaction_id
  lift (if voided then ok tt else err (conflict_error (already_voided transaction_id)))
  let original = as_voided found
  posted_at ← get (λ s. s.now)
  reversal ← save (reversal_of original posted_at) (map reversal_entry original.entries)
  log user_id "transaction" reversal.id "create" none
      (some (reversal_snapshot reversal original.id))
  log user_id "transaction" original.id "void" (some (before_void_snapshot found))
      (some (after_void_snapshot original reversal.id))
  pure (original, reversal)

abbrev some_pair : Loaded × Loaded → Option (Loaded × Loaded)
some_pair p = some p

unfoldable pub void_transaction : Uuid → Uuid → Action (Option (Loaded × Loaded))
void_transaction transaction_id user_id = do
  db ← get (λ s. s.db)
  found ← lift (find_by_id_with_entries transaction_id db)
  elim found [
    | none ↦ pure none
    | some original ↦ (do pair ← void_found original transaction_id user_id; pure (some_pair pair))
  ]
