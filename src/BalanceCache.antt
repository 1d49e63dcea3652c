-- ===== src/BalanceCache.antt =====
-- The balance cache: `get_account_balance` of app/api/v1/routes/accounts.py, which reads and fills
-- it, and `_invalidate_balance_cache` of app/api/v1/routes/transactions.py. Redis, `json` and the
-- texts of a UUID and a date are not in the repository: they are the parameters `Redis`, `Codec`
-- and `Texts`.
pub mod Keys
pub mod Reads
pub mod Writes
pub mod Accounts
pub mod Events
pub mod Serves
pub mod Race
use Prim.Native.String.{◌++◌ as str_append}
use payment_ledger_api.Common.{
  ℕ, String, true, false, Option, none, some, List, [], ◌∷◌, map, contains, to_set, ltb, ◌≡◌, ◌==◌,
  nat_eq, string_eq, if◌then◌else◌,
}
use payment_ledger_api.Common.Int.{ℤ}
use payment_ledger_api.Model.{Uuid, Date, Account, Entry}
use payment_ledger_api.Errors.{Error, Result, ok, err, http_exception, not_found}
use payment_ledger_api.Db.{Db}
use payment_ledger_api.Idempotency.{Reply}
use payment_ledger_api.Repositories.Accounts.{find_by_id, calculate_balance}

-- The commands that are used, on a store of raw values. The laws are those of the Redis
-- documentation for keys that do not expire during the calls: SCAN gives every key that the pattern
-- matches, and a pattern that ends in its only special character, a star, matches what begins with the rest.
pub record Redis (Raw : Type 0) : Type 1 where
  pub Store : Type 0
  pub get : String → Store → Option Raw
  -- SET with the option EX
  pub set : String → Raw → ℕ → Store → Store
  pub scan_iter : String → Store → List String
  pub delete : List String → Store → Store
  pub IsPlain : String → Type 0
  pub get-set : (k : String) (v : Raw) (ttl : ℕ) (s : Store) → get k (set k v ttl s) ≡ some v
  pub get-set-other :
      (k j : String) (v : Raw) (ttl : ℕ) (s : Store)
      → (k == j) ≡ false
      → get k (set j v ttl s) ≡ get k s
  pub scan_iter-all :
      (prefix rest : String) (s : Store) {v : Raw}
      → IsPlain prefix
      → get (str_append prefix rest) s ≡ some v
      → contains (scan_iter (str_append prefix "*") s) (str_append prefix rest) ≡ true
  pub get-delete :
      (k : String) (keys : List String) (s : Store)
      → get k (delete keys s) ≡ (if contains keys k then none else get k s)

-- The object that is stored under a key.
pub record CachedBalance : Type 0 where
  pub balance : ℤ
  pub currency : String

-- `json.dumps`, and `json.loads` with the lookups of the two fields, which may raise.
pub record Codec (Raw : Type 0) : Type 0 where
  pub dumps : CachedBalance → Raw
  pub loads : Raw → Result CachedBalance
  pub loads-dumps : (x : CachedBalance) → loads (dumps x) ≡ ok x

-- `balance_cache_ttl_seconds` and `balance_cache_ttl_historical_seconds` of app/core/config.py.
pub record Settings : Type 0 where
  pub balance_cache_ttl_seconds : ℕ
  pub balance_cache_ttl_historical_seconds : ℕ

-- app/schemas/account.py; `as_of` stands for `as_of.date()`.
pub record BalanceResponse : Type 0 where
  pub balance : ℤ
  pub currency : String
  pub as_of : Date

abbrev pub response : CachedBalance → Date → BalanceResponse
response content as_of = record {
  balance = content.balance;
  currency = content.currency;
  as_of = as_of;
}

abbrev pub account_not_found : Error
account_not_found = http_exception 404 (not_found "Account not found")

abbrev pub ttl_of : Settings → (as_of today : Date) → ℕ
ttl_of settings as_of today =
    if ltb as_of today
    then settings.balance_cache_ttl_historical_seconds
    else settings.balance_cache_ttl_seconds

abbrev pub balance_of : Result (Option Account) → ℤ → Result CachedBalance
balance_of (err x) balance = err x
balance_of (ok none) balance = err account_not_found
balance_of (ok (some account)) balance =
    ok (record { balance = balance; currency = account.currency })

-- The queries of the handler: the account, and if it is there its balance.
unfoldable pub compute : Uuid → Date → Db → Result CachedBalance
compute id as_of db = balance_of (find_by_id id db) (calculate_balance id as_of db)

abbrev pub from_cache : Date → Result CachedBalance → Result BalanceResponse
from_cache as_of (ok content) = ok (response content as_of)
from_cache as_of (err x) = err x

module _ {Raw : Type 0} (R : Redis Raw) where
  -- A connection error is logged, and the GET counts as a miss.
  abbrev pub cached : Reply → String → R.Store → Option Raw
  cached Reply.answered key s = R.get key s
  cached Reply.refused key s = none
  cached Reply.lost key s = none

  -- A connection error is logged; a SET whose reply is lost took place.
  unfoldable pub write_back : Codec Raw → Reply → String → CachedBalance → ℕ → R.Store → R.Store
  write_back J Reply.answered key content ttl s = R.set key (J.dumps content) ttl s
  write_back J Reply.refused key content ttl s = s
  write_back J Reply.lost key content ttl s = R.set key (J.dumps content) ttl s

module _ (uuid_text : Uuid → String) (date_text : Date → String) where
  -- f"balance:{id}:{as_of.date()}"
  abbrev pub cache_key : Uuid → Date → String
  cache_key id as_of =
      str_append (str_append "balance:" (uuid_text id)) (str_append ":" (date_text as_of))

  -- f"balance:{account_id}:*"
  abbrev pub pattern : Uuid → String
  pattern id = str_append (str_append "balance:" (uuid_text id)) ":*"

  module _ {Raw : Type 0} (R : Redis Raw) (J : Codec Raw) where
    -- `on_get` and `on_set` are what becomes of the two commands.
    unfoldable pub get_account_balance :
        Settings
        → (today : Date) → (on_get on_set : Reply) → Uuid
        → Date
        → Db
        → R.Store
        → Result BalanceResponse × R.Store
    unfolding compute write_back
    get_account_balance settings today on_get on_set id as_of db s =
        elim (cached R on_get (cache_key id as_of) s) [
          | some raw ↦ (from_cache as_of (J.loads raw), s)
          | none ↦ elim (compute id as_of db) [
            | err x ↦ (err x, s)
            | ok content ↦ (
              ok (response content as_of),
              write_back R J on_set (cache_key id as_of) content (ttl_of settings as_of today) s,
            )
          ]
        ]

  module _ {Raw : Type 0} (R : Redis Raw) where
    -- What is left to do after the DELETE of one account, if it was answered.
    abbrev pub deleted : Reply → List String → (R.Store → R.Store) → R.Store → R.Store
    deleted on_delete [] rest s = rest s
    deleted Reply.answered (k ∷ keys) rest s = rest (R.delete (k ∷ keys) s)
    deleted Reply.refused (k ∷ keys) rest s = s
    deleted Reply.lost (k ∷ keys) rest s = R.delete (k ∷ keys) s

    abbrev pub scanned : Reply → Reply → List String → (R.Store → R.Store) → R.Store → R.Store
    scanned Reply.answered on_delete keys rest s = deleted on_delete keys rest s
    scanned Reply.refused on_delete keys rest s = s
    scanned Reply.lost on_delete keys rest s = s

    -- `_invalidate_balance_cache`; the replies to the SCAN and the DELETE of each account. The first
    -- connection error is logged, and ends the loop.
    unfoldable pub invalidate_balance_cache : (Uuid → Reply × Reply) → List Uuid → R.Store → R.Store
    invalidate_balance_cache replies [] s = s
    invalidate_balance_cache replies (id ∷ ids) s =
        scanned (replies id).0 (replies id).1 (R.scan_iter (pattern id) s)
          (invalidate_balance_cache replies ids) s

-- `{entry.account_id for entry in voided.entries}`
abbrev pub affected_account_ids : List Entry → List Uuid
affected_account_ids entries = to_set (map (λ e. e.account_id) entries)
