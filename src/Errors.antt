-- ===== src/Errors.antt =====
-- What a call can raise: the domain errors of app/core/exceptions.py, FastAPI's HTTPException, and
-- the errors of SQLAlchemy, the database driver and `decimal` that no layer catches. A `Detail` is
-- the text of an error with the values that are put into it.
use payment_ledger_api.Common.{◌≡◌, refl, ◌⊎◌, inl, inr, ℕ, String, List}
use payment_ledger_api.Model.{Uuid, Date}

pub data Detail : Type 0 where
  unknown_accounts : List Uuid → Detail
  one_sided : Detail
  mixed_currencies : List String → Detail
  currency_mismatch : List Uuid → Detail
  not_balanced : (debit credit : ℕ) → Detail
  unknown_currency : String → Detail
  no_base_currency : Detail
  no_exchange_rate : String → Date → Detail
  already_voided : Uuid → Detail
  duplicate_rate : Detail
  duplicate_email : Detail
  not_found : String → Detail
  invalid_body : Detail
  bad_credentials : Detail
  role_required : String → Detail
  key_already_used : Detail
  key_reused : Detail

pub data Error : Type 0 where
  validation_error conflict_error : Detail → Error
  http_exception : ℕ → Detail → Error
  integrity_error : Error
  data_error : Error
  no_result_found : Error
  multiple_results_found : Error
  key_error value_error : Error
  invalid_operation : Error
  redis_error : Error

pub data Result {ℓ} (A : Type ℓ) : Type ℓ where
  ok : A → Result A
  err : Error → Result A

-- The status of the response: `domain_error_handler` of app/main.py for a domain error, FastAPI's
-- handler for an HTTPException, and 500 for what nobody catches.
unfoldable pub status_code : Error → ℕ
status_code (validation_error d) = 422
status_code (conflict_error d) = 409
status_code (http_exception n d) = n
status_code _ = 500

infixl 5 ◌>>=◌
abbrev pub ◌>>=◌ {ℓ κ} : {A : Type ℓ} {B : Type κ} → Result A → (A → Result B) → Result B
ok a >>= f = f a
err e >>= f = err e

pub Result-cases {ℓ} :
    {A : Type ℓ} (r : Result A) → ((a : A) × (r ≡ ok a)) ⊎ ((e : Error) × (r ≡ err e))
Result-cases (ok a) = inl (a, refl)
Result-cases (err e) = inr (e, refl)
