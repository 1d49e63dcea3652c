-- ===== src/Repositories.antt =====
-- app/repositories: what a query returns, and the results that its caller unpacks.
pub mod Accounts
pub mod Currencies
pub mod Transactions
pub mod Audit
pub mod Users
pub mod Ledger
use payment_ledger_api.Common.{Option, none, some, List, [], ◌∷◌}
use payment_ledger_api.Errors.{Result, ok, err, no_result_found, multiple_results_found}

module _ {ℓ} {A : Type ℓ} where
  -- `result.scalar_one_or_none()`
  unfoldable pub scalar_one_or_none : List A → Result (Option A)
  scalar_one_or_none [] = ok none
  scalar_one_or_none (x ∷ []) = ok (some x)
  scalar_one_or_none (x ∷ y ∷ rest) = err multiple_results_found

  -- `result.scalar_one()`
  unfoldable pub scalar_one : List A → Result A
  scalar_one [] = err no_result_found
  scalar_one (x ∷ []) = ok x
  scalar_one (x ∷ y ∷ rest) = err multiple_results_found
