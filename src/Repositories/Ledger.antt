-- ===== src/Repositories/Ledger.antt =====
-- app/repositories/ledger_repository.py, and the paged queries of the audit and transaction
-- repositories.
pub mod Order
pub mod Pages
use payment_ledger_api.Common.{
  ℕ, String, Bool, true, false, ◌&&◌, Option, none, some, List, map, filter, order_by, page, ltb,
  leb, ◌==◌, nat_eq, string_eq, if◌then◌else◌,
}
use payment_ledger_api.Model.{Uuid, Date, Timestamp, Entry, Transaction, AuditLog}
use payment_ledger_api.Db.{Db}
use payment_ledger_api.Repositories.Accounts.{joined}
use payment_ledger_api.Repositories.Currencies.{optional}
use payment_ledger_api.Repositories.Transactions.{Loaded, with_entries}

-- `posted_at DESC`: PostgreSQL puts NULL first.
abbrev pub posted_later : Option Timestamp → Option Timestamp → Bool
posted_later none none = false
posted_later none (some b) = true
posted_later (some a) none = false
posted_later (some a) (some b) = ltb b a

-- `ORDER BY transaction_date DESC, posted_at DESC, id`
abbrev pub newest_first : Transaction → Uuid → Transaction → Uuid → Bool
newest_first t i u j =
    if ltb u.transaction_date t.transaction_date
    then true
    else if ltb t.transaction_date u.transaction_date
    then false
    else if posted_later t.posted_at u.posted_at
    then true
    else if posted_later u.posted_at t.posted_at
    then false
    else leb i j

-- The WHERE clause of `list_entries`.
abbrev pub entry_matches :
    (from_date to_date : Option Date) → Option Uuid → Option String → Entry × Transaction → Bool
entry_matches from_date to_date account_id currency_code (e, t) =
    optional from_date (λ d. leb d t.transaction_date)
    && optional to_date (λ d. leb t.transaction_date d)
    && optional account_id (λ i. e.account_id == i)
    && optional currency_code (λ c. e.currency == c)

unfoldable pub list_entries :
    (from_date to_date : Option Date)
    → Option Uuid
    → Option String
    → (limit offset : ℕ) → Db
    → List (Entry × Transaction)
list_entries from_date to_date account_id currency_code limit offset db = page limit offset (
    order_by (λ r q. newest_first r.1 r.0.id q.1 q.0.id)
      (filter (entry_matches from_date to_date account_id currency_code)
        (joined db.entries db.transactions)))

-- `TransactionRepository.list_all`
unfoldable pub list_transactions : (limit offset : ℕ) → Db → List Loaded
list_transactions limit offset db =
    map (with_entries db)
      (page limit offset (order_by (λ t u. newest_first t t.id u u.id) db.transactions))

-- `if entity_type:` skips the empty text too.
abbrev pub log_matches :
    Option String → Option Uuid → (from_dt to_dt : Option Timestamp) → AuditLog → Bool
log_matches entity_type entity_id from_dt to_dt a =
    optional entity_type (λ k. if k == "" then true else (a.entity_type == k))
    && optional entity_id (λ i. a.entity_id == i)
    && optional from_dt (λ d. leb d a.created_at)
    && optional to_dt (λ d. leb a.created_at d)

-- `AuditRepository.list_logs`. Rows that tie come in the order of their INSERTs here; the database
-- promises no order for them.
unfoldable pub list_logs :
    Option String
    → Option Uuid
    → (from_dt to_dt : Option Timestamp) → (limit offset : ℕ) → Db
    → List AuditLog
list_logs entity_type entity_id from_dt to_dt limit offset db = page limit offset (
    order_by (λ a b. leb b.created_at a.created_at)
      (filter (log_matches entity_type entity_id from_dt to_dt) db.audit_logs))
