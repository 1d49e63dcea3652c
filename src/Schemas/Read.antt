-- ===== src/Schemas/Read.antt =====
-- The response bodies of app/schemas/transaction.py: `model_validate` copies the attributes.
use payment_ledger_api.Common.{ℕ, String, List, map}
use payment_ledger_api.Model.{Uuid, Date, Timestamp, Direction, TransactionStatus, Entry}
use payment_ledger_api.Repositories.Transactions.{Loaded}

pub record EntryRead : Type 0 where
  pub id : Uuid
  pub account_id : Uuid
  pub direction : Direction
  pub amount : ℕ
  pub currency : String
  pub converted_amount_usd : ℕ

pub record TransactionRead : Type 0 where
  pub id : Uuid
  pub description : String
  pub transaction_date : Date
  pub status : TransactionStatus
  pub created_at : Timestamp
  pub entries : List EntryRead

pub record VoidResponse : Type 0 where
  pub voided_transaction : TransactionRead
  pub reversal_transaction : TransactionRead

abbrev pub entry_read : Entry → EntryRead
entry_read e = record {
  id = e.id;
  account_id = e.account_id;
  direction = e.direction;
  amount = e.amount;
  currency = e.currency;
  converted_amount_usd = e.converted_amount_usd;
}

abbrev pub transaction_read : Loaded → TransactionRead
transaction_read t = record {
  id = t.id;
  description = t.description;
  transaction_date = t.transaction_date;
  status = t.status;
  created_at = t.created_at;
  entries = map entry_read t.entries;
}

abbrev pub void_response : Loaded × Loaded → VoidResponse
void_response (original, reversal) = record {
  voided_transaction = transaction_read original;
  reversal_transaction = transaction_read reversal;
}
