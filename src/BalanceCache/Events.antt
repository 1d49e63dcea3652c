-- ===== src/BalanceCache/Events.antt =====
-- What each event of `Serves` keeps: the invariant of the ledger, and the coherence of the cache.
use payment_ledger_api.Common.{◌≡◌, refl, ◌∙◌, map, to_set, nat_eq}
use payment_ledger_api.Model.{Uuid, Date, Account}
use payment_ledger_api.Errors.{ok}
use payment_ledger_api.Schemas.{TransactionCreate}
use payment_ledger_api.Db.{Db}
use payment_ledger_api.Session.{Session, get_db}
use payment_ledger_api.Session.Atomic.{get_db-ok, published}
use payment_ledger_api.Repositories.Accounts.{NewAccount}
use payment_ledger_api.Repositories.Transactions.{Loaded}
use payment_ledger_api.Services.Transactions.{create_transaction}
use payment_ledger_api.Services.Admin.{create_account}
use payment_ledger_api.Services.Admin.Added.{create_account-AccountAdded}
use payment_ledger_api.Routes.Commits.{voided_or_missing, voided_or_missing-ok}
use payment_ledger_api.Ledger.{IsLedger}
use payment_ledger_api.Ledger.Grows.{same_tables-IsLedger}
use payment_ledger_api.Ledger.Requests.{create_transaction-IsLedger, void_transaction-IsLedger}
use payment_ledger_api.Ledger.Committed.{published-IsLedger}
use payment_ledger_api.Idempotency.{Reply}
use payment_ledger_api.BalanceCache.{
  Redis, Codec, CachedBalance, Settings, compute, get_account_balance, affected_account_ids,
}
use payment_ledger_api.BalanceCache.Keys.{Texts, invalidated}
use payment_ledger_api.BalanceCache.Reads.{IsCoherent, get_account_balance-exact}
use payment_ledger_api.BalanceCache.Writes.{
  create_transaction-IsCoherent, void_transaction-IsCoherent, compute-same, calculate_balance-same,
}
use payment_ledger_api.BalanceCache.Accounts.{compute-append}

-- Every command of an invalidation is answered.
abbrev pub answered : Uuid → Reply × Reply
answered id = (Reply.answered, Reply.answered)

module _ {Raw : Type 0} (R : Redis Raw) (J : Codec Raw) (T : Texts R) where
  pub record IsServing (db : Db) (store : R.Store) : Type 0 where
    pub ledger : IsLedger db
    pub coherent : IsCoherent R J T db store

  pub read-IsServing :
      (settings : Settings) (today : Date) (on_get on_set : Reply) (id : Uuid) (as_of : Date)
      (db : Db) (store : R.Store)
      → IsServing db store
      → IsServing db
          (get_account_balance T.uuid_text T.date_text R J settings today on_get on_set id as_of db
            store).1
  read-IsServing settings today on_get on_set id as_of db store inv = record {
    ledger = inv.ledger;
    coherent =
        (get_account_balance-exact R J T settings today on_get on_set id as_of db store
          inv.coherent).1;
  }

  -- Tables in which every balance that was there is the same.
  pub tables-IsServing :
      (db db' : Db) (store : R.Store)
      → IsLedger db'
      → ((id : Uuid) (as_of : Date) (content : CachedBalance)
          → compute id as_of db ≡ ok content
          → compute id as_of db' ≡ ok content)
      → IsServing db store
      → IsServing db' store
  tables-IsServing db db' store ledger same inv = record {
    ledger = ledger;
    coherent = λ id as_of raw p.
        let stored = inv.coherent id as_of raw p in
        record {
          content = stored.content;
          loaded = stored.loaded;
          computed = same id as_of stored.content stored.computed;
        };
  }

  -- What a COMMIT adds is no business of the cache.
  published-IsServing :
      (s : Session) (store : R.Store)
      → IsServing s.db store
      → IsServing (published s).committed store
  published-IsServing s store inv =
      tables-IsServing s.db (published s).committed store (published-IsLedger s inv.ledger)
        (λ id as_of content c.
          compute-same id as_of s.db (published s).committed refl
            (calculate_balance-same id as_of s.db (published s).committed refl refl)
          ∙ c)
        inv

  -- A request that was answered has published what its handler left, of which the audit logs are no business of the cache.
  answered-IsServing :
      (s s' : Session) (store : R.Store)
      → s' ≡ published s
      → IsServing s.db store
      → IsServing s'.committed store
  answered-IsServing s s' store h inv = rw h (published-IsServing s store inv)

  pub post-IsServing :
      (payload : TransactionCreate) (user_id : Uuid) (s : Session) (store : R.Store)
      {loaded : Loaded} {s' : Session}
      → get_db (create_transaction payload user_id) s ≡ (ok loaded, s')
      → IsServing s.db store
      → IsServing s'.committed
          (invalidated R T answered (to_set (map (λ e. e.account_id) payload.entries)) store)
  post-IsServing payload user_id s store {loaded} {s'} h inv =
      let (s₁, p, fired, after) = get_db-ok (create_transaction payload user_id) s h in
      answered-IsServing s₁ s' _ after (record {
        ledger = create_transaction-IsLedger payload user_id s p inv.ledger;
        coherent =
            create_transaction-IsCoherent R J T answered (λ id. refl) payload user_id s store p
              inv.ledger inv.coherent;
      })

  pub void-IsServing :
      (id user_id : Uuid) (s : Session) (store : R.Store) {original reversal : Loaded}
      {s' : Session}
      → get_db (voided_or_missing id user_id) s ≡ (ok (original, reversal), s')
      → IsServing s.db store
      → IsServing s'.committed
          (invalidated R T answered (affected_account_ids original.entries) store)
  void-IsServing id user_id s store {original} {reversal} {s'} h inv =
      let (s₁, p, after) = voided_or_missing-ok id user_id s h in
      answered-IsServing s₁ s' _ after (record {
        ledger = void_transaction-IsLedger id user_id s p inv.ledger;
        coherent =
            void_transaction-IsCoherent R J T answered (λ i. refl) id user_id s store p inv.ledger
              inv.coherent;
      })

  pub account-IsServing :
      (payload : NewAccount) (user_id : Uuid) (s : Session) (store : R.Store) {a : Account}
      {s' : Session}
      → get_db (create_account payload user_id) s ≡ (ok a, s')
      → IsServing s.db store
      → IsServing s'.committed store
  account-IsServing payload user_id s store {a} {s'} h inv =
      let (s₁, p, fired, after) = get_db-ok (create_account payload user_id) s h in
      let added = create_account-AccountAdded payload user_id s p in
      answered-IsServing s₁ s' store after (
        rw added.after (
          tables-IsServing s.db _ store (same_tables-IsLedger s.db _ refl refl inv.ledger)
            (λ id as_of content c. compute-append id as_of a s.db added.new_id c) inv))
