-- ===== src/Routes.antt =====
-- The handlers of app/api/v1/routes/transactions.py that write. They commit right after the service,
-- before `get_db` does, and call Redis then. What these calls do to Redis is in BalanceCache and
-- Idempotency; here each comes with its outcome. The other routes are in Endpoints.
pub mod Commits
pub mod Endpoints
pub mod Roles
use payment_ledger_api.Common.{ℕ, Option, none, some}
use payment_ledger_api.Model.{Uuid}
use payment_ledger_api.Errors.{Error, Result, http_exception, not_found}
use payment_ledger_api.Schemas.{TransactionCreate}
use payment_ledger_api.Schemas.Read.{TransactionRead, VoidResponse, transaction_read, void_response}
use payment_ledger_api.Session.{Action, pure, lift, commit, ◌>>=◌, ◌>>◌}
use payment_ledger_api.Services.Transactions.{create_transaction, void_transaction, found_or}

-- The post of a request that is no replay. `_invalidate_balance_cache` catches connection errors and
-- timeouts, and may raise another error of Redis; `idempotency.cache` may raise any.
unfoldable pub run_post :
    (invalidated cached : Result (Unit {0}))
    → TransactionCreate
    → Uuid
    → Action (ℕ × TransactionRead)
run_post invalidated cached payload user_id = do
  transaction ← create_transaction payload user_id
  commit
  lift invalidated
  lift cached
  pure (201, transaction_read transaction)

-- The status and the body. `replay` is `idempotency.replay`.
unfoldable pub post_transaction :
    (replay : Option TransactionRead)
    → (invalidated cached : Result (Unit {0})) → TransactionCreate
    → Uuid
    → Action (ℕ × TransactionRead)
unfolding run_post
post_transaction none invalidated cached payload user_id =
    run_post invalidated cached payload user_id
post_transaction (some body) invalidated cached payload user_id = pure (200, body)

abbrev pub missing_transaction : Error
missing_transaction = http_exception 404 (not_found "Transaction not found")

unfoldable pub void_transaction_endpoint :
    (invalidated : Result (Unit {0})) → Uuid → Uuid → Action VoidResponse
void_transaction_endpoint invalidated id user_id = do
  result ← void_transaction id user_id
  pair ← lift (found_or missing_transaction result)
  commit
  lift invalidated
  pure (void_response pair)
