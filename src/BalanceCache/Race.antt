-- ===== src/BalanceCache/Race.antt =====
-- A read of a balance that is overtaken by a write: it misses the cache and computes before the COMMIT, and
-- its SET comes after the invalidation.
use payment_ledger_api.Common.{ℕ, ◌≡◌, ◌≢◌, ap, sym, ◌∙◌, Option, map, to_set, nat_eq, arith}
use payment_ledger_api.Common.Int.{ℤ, pos, pos_part, neg_part, ◌+ℤ◌, int_laws}
use payment_ledger_api.Model.{Uuid, Date}
use payment_ledger_api.Errors.{Result, ok, err}
use payment_ledger_api.Schemas.{TransactionCreate}
use payment_ledger_api.Db.{Db}
use payment_ledger_api.Session.{Session}
use payment_ledger_api.Repositories.Accounts.{find_by_id, calculate_balance}
use payment_ledger_api.Repositories.Transactions.{Loaded}
use payment_ledger_api.Services.Transactions.{create_transaction}
use payment_ledger_api.Ledger.{IsLedger}
use payment_ledger_api.Ledger.Effect.{own_balance}
use payment_ledger_api.Ledger.Reversal.{create_transaction-balance}
use payment_ledger_api.Idempotency.{Reply}
use payment_ledger_api.BalanceCache.{
  Redis, Codec, CachedBalance, Settings, response, compute, balance_of, from_cache, ttl_of,
  write_back, get_account_balance,
}
use payment_ledger_api.BalanceCache.Keys.{Texts, key_of, invalidated}
use payment_ledger_api.BalanceCache.Reads.{uncached}

-- What is computed is the balance of the tables.
compute-balance :
    (id : Uuid) (as_of : Date) (db : Db) {content : CachedBalance}
    → compute id as_of db ≡ ok content
    → content.balance ≡ calculate_balance id as_of db
unfolding compute
compute-balance id as_of db h = from (find_by_id id db) h
  where
    from :
        (r : Result (Option _)) {content : CachedBalance}
        → balance_of r (calculate_balance id as_of db) ≡ ok content
        → content.balance ≡ calculate_balance id as_of db
    from (err x) h = cc
    from (ok o) h = ground arith

from_cache-ok :
    (as_of : Date) (r : Result CachedBalance) (content : CachedBalance)
    → from_cache as_of r ≡ ok (response content as_of)
    → r ≡ ok content
from_cache-ok as_of (ok c) content h = ground arith
from_cache-ok as_of (err x) content h = cc

moved : (x y z : ℤ) → z ≡ x +ℤ y → z ≡ x → y ≡ pos 0
moved x y z p q = omega (int_laws, ap pos_part p, ap neg_part p, ap pos_part q, ap neg_part q)

module _ {Raw : Type 0} (R : Redis Raw) (J : Codec Raw) (T : Texts R) where
  set-read :
      (settings : Settings) (today : Date) (on_set : Reply) (id : Uuid) (as_of : Date) (db : Db)
      (store : R.Store) (content : CachedBalance) (ttl : ℕ)
      → (get_account_balance T.uuid_text T.date_text R J settings today Reply.answered on_set id
          as_of db
          (write_back R J Reply.answered (key_of R T id as_of) content ttl store)).0
        ≡ ok (response content as_of)
  unfolding get_account_balance write_back
  set-read settings today on_set id as_of db store content ttl =
      rw (get_account_balance, R.get-set (key_of R T id as_of) (J.dumps content) ttl store)
        (ap (from_cache as_of) (J.loads-dumps content))

  -- A read that computed the balance before a transaction was created, and whose SET comes after the
  -- invalidation, leaves a cache from which the next read is answered by the old balance; if the
  -- transaction moves that balance, this is not what the tables give.
  pub get_account_balance-overtaken :
      (settings : Settings) (today : Date) (replies : Uuid → Reply × Reply) (on_set : Reply)
      (id : Uuid) (as_of : Date) (payload : TransactionCreate) (user_id : Uuid) (s : Session)
      (store : R.Store) {loaded : Loaded} {s' : Session} (content : CachedBalance)
      → compute id as_of s.db ≡ ok content
      → create_transaction payload user_id s ≡ (ok loaded, s')
      → IsLedger s.db
      → own_balance id as_of loaded ≢ pos 0
      → ((get_account_balance T.uuid_text T.date_text R J settings today Reply.answered on_set id
            as_of s'.db
            (write_back R J Reply.answered
              (key_of R T id as_of)
              content
              (ttl_of settings as_of today)
              (invalidated R T replies (to_set (map (λ e. e.account_id) payload.entries)) store))).0
          ≡ ok (response content as_of))
        × (uncached id as_of s'.db ≢ ok (response content as_of))
  get_account_balance-overtaken settings today replies on_set id as_of payload user_id s store
        {loaded} {s'} content c p inv moves =
      (
        set-read settings today on_set id as_of s'.db
            (invalidated R T replies (to_set (map (λ e. e.account_id) payload.entries)) store)
            content (ttl_of settings as_of today),
        λ same. moves (
            moved (calculate_balance id as_of s.db) (own_balance id as_of loaded)
              (calculate_balance id as_of s'.db)
              (create_transaction-balance payload user_id s id as_of p inv)
              (sym (
                  compute-balance id as_of s'.db
                    (from_cache-ok as_of (compute id as_of s'.db) content same))
                ∙ compute-balance id as_of s.db c)),
      )
