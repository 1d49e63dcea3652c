-- ===== src/Routes/Roles.antt =====
-- What callers who are not admins can do: read, and register.
use payment_ledger_api.Common.{◌≡◌, String, Bool, true, false}
use payment_ledger_api.Model.{UserRole}
use payment_ledger_api.Errors.{Error, Result, ok, err, http_exception, role_required}
use payment_ledger_api.Db.{Db}
use payment_ledger_api.Session.{Session}
use payment_ledger_api.Auth.{TokenUser}
use payment_ledger_api.Repositories.Accounts.{list_all as list_accounts_by_code}
use payment_ledger_api.Repositories.Currencies.{list_all as list_currencies_by_code}
use payment_ledger_api.Routes.Endpoints.{Request, RedisOutcome}

abbrev pub writes : Request → Bool
writes (Request.new_account payload) = true
writes (Request.new_currency payload) = true
writes (Request.new_rate from_id to_id rate on) = true
writes (Request.post payload) = true
writes (Request.void id) = true
writes (Request.registration email password) = true
writes _ = false

abbrev pub registers : Request → Bool
registers (Request.registration email password) = true
registers _ = false

-- A caller without a valid token, or an auditor.
abbrev pub IsNoAdmin : Result TokenUser → Type 0
IsNoAdmin (err e) = Unit
IsNoAdmin (ok u) = u.role ≡ UserRole.auditor

-- How such a caller is refused where an admin is asked for.
abbrev pub refusal : Result TokenUser → Error
refusal (err e) = e
refusal (ok u) = http_exception 403 (role_required "Admin role required")

abbrev pub first_error {ℓ} : {A : Type ℓ} → Result A → Error → Error
first_error (err e) other = e
first_error (ok a) other = other

module _ (collated : String → String → Bool) (get_password_hash : String → String)
    (redis : RedisOutcome) (caller : Result TokenUser) where
  -- How a request of such a caller is refused: a post by `check_idempotency` first.
  abbrev pub refused_by : Request → Error
  refused_by (Request.post payload) = first_error redis.idempotency (refusal caller)
  refused_by _ = refusal caller
