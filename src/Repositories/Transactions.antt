-- ===== src/Repositories/Transactions.antt =====
-- app/repositories/transaction_repository.py
pub mod Save
pub mod Returns
pub mod Find
use payment_ledger_api.Common.{
  ℕ, String, Bool, ◌&&◌, Option, List, [], ◌∷◌, ◌++◌, map, filter, length, ◌==◌, nat_eq,
  if◌then◌else◌,
}
use payment_ledger_api.Model.{
  Uuid, Date, Timestamp, Direction, TransactionStatus, status_eq, Entry, Transaction,
}
use payment_ledger_api.Errors.{Result, ok}
use payment_ledger_api.Db.{Db, insert_transaction, insert_entry}
use payment_ledger_api.Session.{Action, pure, lift, query, get, execute, draw, ◌>>=◌, ◌>>◌}
use payment_ledger_api.Repositories.{scalar_one, scalar_one_or_none}

-- A `Transaction` and an `Entry` object before their flush.
pub record NewTransaction : Type 0 where
  pub description : String
  pub transaction_date : Date
  pub status : TransactionStatus
  pub posted_at : Option Timestamp
  pub metadata : Option Uuid

pub record NewEntry : Type 0 where
  pub account_id : Uuid
  pub direction : Direction
  pub amount : ℕ
  pub currency : String
  pub converted_amount_usd : ℕ

-- A `Transaction` object with its `entries` loaded.
pub record Loaded : Type 0 where
  pub header : Transaction
  pub open header use *
  pub entries : List Entry

abbrev pub transaction_row : Uuid → Timestamp → NewTransaction → Transaction
transaction_row id at new = record {
  id = id;
  description = new.description;
  transaction_date = new.transaction_date;
  status = new.status;
  posted_at = new.posted_at;
  created_at = at;
  metadata = new.metadata;
}

abbrev pub entry_row : Uuid → Uuid → NewEntry → Entry
entry_row id transaction_id new = record {
  id = id;
  transaction_id = transaction_id;
  account_id = new.account_id;
  direction = new.direction;
  amount = new.amount;
  currency = new.currency;
  converted_amount_usd = new.converted_amount_usd;
}

-- A row of `entries` goes in, and its trigger is put off to COMMIT.
unfoldable pub add_entry : Entry → Action (Unit {0})
add_entry e = do
  execute (insert_entry e)
  (λ s. (ok tt, record s { deferred = s.deferred ++ e ∷ [] }))

-- `add_all(entries)` and the flush
unfoldable pub add_all : Uuid → List NewEntry → Action (Unit {0})
unfolding draw
add_all transaction_id [] = pure tt
add_all transaction_id (new ∷ rest) = do
  id ← draw
  add_entry (entry_row id transaction_id new)
  add_all transaction_id rest

-- `select(Transaction).where(Transaction.id == id)` with `selectinload(Transaction.entries)`, whose
-- rows have no ORDER BY: here they come in the order of their INSERTs.
abbrev pub with_entries : Db → Transaction → Loaded
with_entries db t = record {
  header = t;
  entries = filter (λ e. e.transaction_id == t.id) db.entries;
}

abbrev pub select_by_id : Uuid → Db → List Loaded
select_by_id id db = map (with_entries db) (filter (λ t. t.id == id) db.transactions)

unfoldable pub save : NewTransaction → List NewEntry → Action Loaded
save new entries = do
  id ← draw
  at ← get (λ s. s.started)
  execute (insert_transaction (transaction_row id at new))
  add_all id entries
  found ← query (select_by_id id)
  lift (scalar_one found)

unfoldable pub find_by_id_with_entries : Uuid → Db → Result (Option Loaded)
find_by_id_with_entries id db = scalar_one_or_none (select_by_id id db)

-- The row that `UPDATE transactions SET status = 'VOIDED' WHERE id = ? AND status = 'POSTED'` hits.
abbrev pub is_voidable : Uuid → Transaction → Bool
is_voidable id t = t.id == id && t.status == TransactionStatus.posted

abbrev pub void_row : Uuid → Transaction → Transaction
void_row id t = if is_voidable id t then record t { status = TransactionStatus.voided } else t

-- True if exactly one row was hit.
unfoldable pub mark_voided_if_posted : Uuid → Action Bool
mark_voided_if_posted id s = (
  ok (length (filter (is_voidable id) s.db.transactions) == 1),
  record s { db = record s.db { transactions = map (void_row id) s.db.transactions } },
)
