-- ===== src/BalanceCache/Serves.antt =====
-- The API over time, tables and balance cache together: reads of balances, requests that write, and
-- keys that expire, in any order, each after the one before.
use payment_ledger_api.Common.{none, ◌≡◌, ap, ◌∙◌, map, to_set, nat_eq}
use payment_ledger_api.Model.{Uuid, Date, Account}
use payment_ledger_api.Errors.{Result, ok}
use payment_ledger_api.Schemas.{TransactionCreate}
use payment_ledger_api.Db.{Db}
use payment_ledger_api.Session.{Session, get_db}
use payment_ledger_api.Repositories.Accounts.{NewAccount}
use payment_ledger_api.Repositories.Transactions.{Loaded}
use payment_ledger_api.Services.Transactions.{create_transaction}
use payment_ledger_api.Services.Admin.{create_account}
use payment_ledger_api.Routes.{post_transaction, void_transaction_endpoint}
use payment_ledger_api.Routes.Commits.{
  voided_or_missing, post_transaction-get_db, void_transaction_endpoint-get_db,
}
use payment_ledger_api.Ledger.{IsLedger}
use payment_ledger_api.Ledger.Grows.{same_tables-IsLedger}
use payment_ledger_api.Ledger.History.{IsOpened}
use payment_ledger_api.Idempotency.{Reply}
use payment_ledger_api.BalanceCache.{
  Redis, Codec, Settings, get_account_balance, affected_account_ids,
}
use payment_ledger_api.BalanceCache.Keys.{Texts, Fades, invalidated}
use payment_ledger_api.BalanceCache.Reads.{
  IsCoherent, IsCoherent-Fades, uncached, get_account_balance-exact,
}
use payment_ledger_api.BalanceCache.Writes.{compute-same, calculate_balance-same}
use payment_ledger_api.BalanceCache.Events.{
  answered, IsServing, read-IsServing, tables-IsServing, post-IsServing, void-IsServing,
  account-IsServing,
}

module _ {Raw : Type 0} (R : Redis Raw) (J : Codec Raw) (T : Texts R) where
  -- What one event makes of the tables and the cache. A request whose service raises leaves the
  -- tables and the cache as they are, and is no event. The commands of an invalidation are answered;
  -- what comes after it in the route may raise, as `idempotency.cache` does when Redis fails.
  pub data Serves (db : Db) (store : R.Store) : Db → R.Store → Type 0 where
    read :
        (settings : Settings) (today : Date) (on_get on_set : Reply) (id : Uuid) (as_of : Date)
        → Serves db store db
            (get_account_balance T.uuid_text T.date_text R J settings today on_get on_set id as_of
              db store).1
    post :
        (cached : Result (Unit {0})) (payload : TransactionCreate) (user_id : Uuid) (s : Session)
        (loaded : Loaded) (s' : Session)
        → IsOpened db s
        → get_db (create_transaction payload user_id) s ≡ (ok loaded, s')
        → Serves db store
            (get_db (post_transaction none (ok tt) cached payload user_id) s).1.committed
            (invalidated R T answered (to_set (map (λ e. e.account_id) payload.entries)) store)
    void :
        (id user_id : Uuid) (s : Session) (original reversal : Loaded) (s' : Session)
        → IsOpened db s
        → get_db (voided_or_missing id user_id) s ≡ (ok (original, reversal), s')
        → Serves db store
            (get_db (void_transaction_endpoint (ok tt) id user_id) s).1.committed
            (invalidated R T answered (affected_account_ids original.entries) store)
    add_account :
        (payload : NewAccount) (user_id : Uuid) (s : Session) (a : Account) (s' : Session)
        → IsOpened db s
        → get_db (create_account payload user_id) s ≡ (ok a, s')
        → Serves db store s'.committed store
    -- a request that writes no account, transaction or entry
    other :
        (db' : Db)
        → db'.accounts ≡ db.accounts
        → db'.transactions ≡ db.transactions
        → db'.entries ≡ db.entries
        → Serves db store db' store
    elapse : (store' : R.Store) → Fades R T store store' → Serves db store db store'

  pub data ServesAll (db : Db) (store : R.Store) : Db → R.Store → Type 0 where
    here : ServesAll db store db store
    next :
        {db₁ db₂ : Db} {store₁ store₂ : R.Store}
        → ServesAll db store db₁ store₁
        → Serves db₁ store₁ db₂ store₂
        → ServesAll db store db₂ store₂

  same_tables :
      {d d' : Db} {store : R.Store} → d' ≡ d → IsServing R J T d store → IsServing R J T d' store
  same_tables h inv = rw h inv

  Serves-IsServing :
      (db db' : Db) (store store' : R.Store)
      → Serves db store db' store'
      → IsServing R J T db store
      → IsServing R J T db' store'
  Serves-IsServing db _ store _ (Serves.read settings today on_get on_set id as_of) inv =
      read-IsServing R J T settings today on_get on_set id as_of db store inv
  Serves-IsServing db _ store _ (Serves.post cached payload user_id s loaded s' opened h) inv =
      same_tables
        (ap (λ p. p.1.committed) (post_transaction-get_db (ok tt) cached payload user_id s)
          ∙ ap (λ p. p.1.committed) h)
        (post-IsServing R J T payload user_id s store h (rw opened.sees inv))
  Serves-IsServing db _ store _ (Serves.void id user_id s original reversal s' opened h) inv =
      same_tables
        (ap (λ p. p.1.committed) (void_transaction_endpoint-get_db (ok tt) id user_id s)
          ∙ ap (λ p. p.1.committed) h)
        (void-IsServing R J T id user_id s store h (rw opened.sees inv))
  Serves-IsServing db _ store _ (Serves.add_account payload user_id s a s' opened h) inv =
      account-IsServing R J T payload user_id s store h (rw opened.sees inv)
  Serves-IsServing db _ store _ (Serves.other db' p q r) inv =
      tables-IsServing R J T db db' store (same_tables-IsLedger db db' r q inv.ledger)
        (λ id as_of content c.
          compute-same id as_of db db' p (calculate_balance-same id as_of db db' q r) ∙ c)
        inv
  Serves-IsServing db _ store _ (Serves.elapse store' f) inv = record {
    ledger = inv.ledger;
    coherent = IsCoherent-Fades R J T db store store' f inv.coherent;
  }

  ServesAll-IsServing :
      (db : Db) (store : R.Store) (db' : Db) (store' : R.Store)
      → ServesAll db store db' store'
      → IsServing R J T db store
      → IsServing R J T db' store'
  ServesAll-IsServing db store _ _ ServesAll.here inv = inv
  ServesAll-IsServing db store db' store' (ServesAll.next {db₁} {db₂} {store₁} {store₂} before last)
        inv =
      Serves-IsServing db₁ db' store₁ store' last
        (ServesAll-IsServing db store db₁ store₁ before inv)

  -- After any sequence, one after the other, of reads, posts, voids, new accounts, other requests and
  -- expired keys, in which Redis answers every SCAN and DELETE of the invalidations, and which starts at
  -- a ledger that keeps its invariant and a coherent cache: a read of any balance is answered as the
  -- tables answer it, whatever becomes of a reader's commands to Redis.
  pub get_account_balance-always_exact :
      (db : Db) (store : R.Store) (db' : Db) (store' : R.Store) (settings : Settings) (today : Date)
      (on_get on_set : Reply) (id : Uuid) (as_of : Date)
      → ServesAll db store db' store'
      → IsLedger db
      → IsCoherent R J T db store
      → (get_account_balance T.uuid_text T.date_text R J settings today on_get on_set id as_of db'
          store').0
        ≡ uncached id as_of db'
  get_account_balance-always_exact db store db' store' settings today on_get on_set id as_of events
        ledger coherent =
      let inv =
        ServesAll-IsServing db store db' store' events
          (record { ledger = ledger; coherent = coherent }) in
      (get_account_balance-exact R J T settings today on_get on_set id as_of db' store'
        inv.coherent).0
