-- ===== src/Tests/Roles.antt =====
-- An auditor who posts the sale of `Runs`.
use payment_ledger_api.Common.{◌≡◌, refl, String, Bool, true}
use payment_ledger_api.Model.{UserRole}
use payment_ledger_api.Errors.{Result, ok, err, http_exception, key_reused}
use payment_ledger_api.Money.{Decimal, rounded8}
use payment_ledger_api.Auth.{TokenUser}
use payment_ledger_api.Routes.Endpoints.{RedisOutcome, rate_positive}

-- Stand-ins for the collation and for bcrypt: any functions will do.
abbrev collated : String → String → Bool
collated s t = true

abbrev hashed : String → String
hashed password = password

abbrev auditor : Result TokenUser
auditor = ok (record { id = 8; role = UserRole.auditor; is_active = true })

-- The Idempotency-Key was used with another body, and Redis answers.
abbrev key_taken : RedisOutcome
key_taken = record {
  idempotency = err (http_exception 422 key_reused);
  invalidated = ok tt;
  cached = ok tt;
}

-- A rate of 10 ^ -9 passes the check of the payload, and is stored as 0.
abbrev tiny_rate : Decimal
tiny_rate = record { coefficient = 1; places = 9 }

tiny_rate-zero : (rate_positive tiny_rate ≡ ok tt) × (rounded8 tiny_rate ≡ 0)
tiny_rate-zero = (refl, refl)
