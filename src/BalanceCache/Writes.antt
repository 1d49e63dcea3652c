-- ===== src/BalanceCache/Writes.antt =====
-- What the balance cache promises when the ledger is written to: after the invalidation what is
-- left in it is still what the tables give.
use mathlib.Core.Path.{ap₂}
use payment_ledger_api.Common.{
  ℕ, ◌≡◌, refl, ap, sym, ◌∙◌, false, some, List, [], ◌∷◌, map, contains, to_set, contains-to_set,
  inl, inr, ◌+◌, nat_eq, string_eq, Bool-cases, arith,
}
use payment_ledger_api.Common.Int.{ℤ, pos, ◌+ℤ◌, int_laws}
use payment_ledger_api.Model.{Uuid, Date, Direction, direction_eq, Entry}
use payment_ledger_api.Errors.{ok, Result-cases}
use payment_ledger_api.Schemas.{EntryCreate, TransactionCreate}
use payment_ledger_api.Db.{Db}
use payment_ledger_api.Session.{Session}
use payment_ledger_api.Repositories.Accounts.{find_by_id, calculate_balance}
use payment_ledger_api.Repositories.Transactions.{NewEntry, Loaded}
use payment_ledger_api.Repositories.Transactions.Save.{rows}
use payment_ledger_api.Services.Transactions.{create_transaction, void_transaction, new_entries}
use payment_ledger_api.Services.Transactions.Create.{create_transaction-ok, posted_header}
use payment_ledger_api.Services.Transactions.Void.{void_transaction-ok}
use payment_ledger_api.Ledger.{IsLedger}
use payment_ledger_api.Ledger.Effect.{own_sum, own_balance, loaded-rows}
use payment_ledger_api.Ledger.Reversal.{create_transaction-balance, void_transaction-balance}
use payment_ledger_api.Idempotency.{Reply}
use payment_ledger_api.BalanceCache.{Redis, Codec, compute, balance_of, affected_account_ids}
use payment_ledger_api.BalanceCache.Keys.{
  Texts, key_of, Fades, AreGone, invalidated, invalidate-Fades, invalidate-AreGone,
}
use payment_ledger_api.BalanceCache.Reads.{IsStored, IsCoherent}

abbrev pub entry_account_ids : List Entry → List Uuid
entry_account_ids es = map (λ e. e.account_id) es

-- An account that no entry is of gains and loses nothing.
own_sum-untouched :
    (id : Uuid) (side : Direction) (es : List Entry)
    → contains (entry_account_ids es) id ≡ false
    → own_sum id side es ≡ 0
own_sum-untouched id side [] h = refl
own_sum-untouched id side (e ∷ es) h = ground (arith, own_sum-untouched id side es)

own_balance-untouched :
    (id : Uuid) (as_of : Date) (t : Loaded)
    → contains (entry_account_ids t.entries) id ≡ false
    → own_balance id as_of t ≡ pos 0
own_balance-untouched id as_of t h =
    rw
      (
        own_sum-untouched id Direction.debit t.entries h,
        own_sum-untouched id Direction.credit t.entries h,
      )
      (ground arith)

add_zero : (x y : ℤ) → y ≡ pos 0 → x +ℤ y ≡ x
add_zero x y h = rw h (omega int_laws)

find_by_id-same :
    (id : Uuid) (db db' : Db) → db'.accounts ≡ db.accounts → find_by_id id db' ≡ find_by_id id db
unfolding find_by_id
find_by_id-same id db db' p = rw p refl

pub calculate_balance-same :
    (id : Uuid) (as_of : Date) (db db' : Db)
    → db'.transactions ≡ db.transactions
    → db'.entries ≡ db.entries
    → calculate_balance id as_of db' ≡ calculate_balance id as_of db
unfolding calculate_balance
calculate_balance-same id as_of db db' p q = rw (p, q) refl

pub compute-same :
    (id : Uuid) (as_of : Date) (db db' : Db)
    → db'.accounts ≡ db.accounts
    → calculate_balance id as_of db' ≡ calculate_balance id as_of db
    → compute id as_of db' ≡ compute id as_of db
unfolding compute
compute-same id as_of db db' p q = ap₂ balance_of (find_by_id-same id db db' p) q

rows-account_ids :
    (uuid4 : ℕ → Uuid) (n : ℕ) (id : Uuid) (news : List NewEntry)
    → entry_account_ids (rows uuid4 n id news) ≡ map (λ e. e.account_id) news
rows-account_ids uuid4 n id [] = refl
rows-account_ids uuid4 n id (new ∷ news) =
    ap (λ l. new.account_id ∷ l) (rows-account_ids uuid4 (n + 1) id news)

new_entries-account_ids :
    (es : List EntryCreate) (usd : List ℕ) {news : List NewEntry}
    → new_entries es usd ≡ ok news
    → map (λ e. e.account_id) news ≡ map (λ e. e.account_id) es
unfolding new_entries
new_entries-account_ids [] [] h = ground arith
new_entries-account_ids [] (u ∷ us) h = cc
new_entries-account_ids (e ∷ es) [] h = cc
new_entries-account_ids (e ∷ es) (u ∷ us) h = elim (Result-cases (new_entries es us)) [
  | inl (more, p) ↦ ground (arith, new_entries-account_ids es us p)
  | inr (x, p) ↦ ground arith
]

-- The accounts that the request names are those of the entries that are saved.
pub create_transaction-account_ids :
    (payload : TransactionCreate) (user_id : Uuid) (s : Session) {loaded : Loaded} {s' : Session}
    → create_transaction payload user_id s ≡ (ok loaded, s')
    → IsLedger s.db
    → entry_account_ids loaded.entries ≡ map (λ e. e.account_id) payload.entries
create_transaction-account_ids payload user_id s h inv =
    let c = create_transaction-ok payload user_id s h in
    ap entry_account_ids (loaded-rows (posted_header payload s) c.news s c.saved inv)
    ∙ rows-account_ids s.uuid4 (s.draws + 1) (s.uuid4 s.draws) c.news
    ∙ new_entries-account_ids payload.entries c.converted c.zipped

module _ {Raw : Type 0} (R : Redis Raw) (J : Codec Raw) (T : Texts R) where
  IsStored-same :
      {raw : Raw} (id : Uuid) (as_of : Date) (db db' : Db)
      → compute id as_of db' ≡ compute id as_of db
      → IsStored R J T raw id as_of db
      → IsStored R J T raw id as_of db'
  IsStored-same id as_of db db' same stored = record {
    content = stored.content;
    loaded = stored.loaded;
    computed = same ∙ stored.computed;
  }

  -- A write that changes the balance of some accounts, and takes away their keys.
  pub write-IsCoherent :
      (ids : List Uuid) (db db' : Db) (s s' : R.Store)
      → ((id : Uuid) (as_of : Date)
          → contains ids id ≡ false
          → compute id as_of db' ≡ compute id as_of db)
      → Fades R T s s'
      → AreGone R T ids s'
      → IsCoherent R J T db s
      → IsCoherent R J T db' s'
  write-IsCoherent ids db db' s s' same f gone h id as_of raw p =
      elim (Bool-cases (contains ids id)) [
        | inl hit ↦ cc (gone id as_of hit, p)
        | inr miss ↦ elim (f (key_of R T id as_of)) [
          | inl none_left ↦ cc
          | inr kept ↦
              IsStored-same id as_of db db' (same id as_of miss) (h id as_of raw (sym kept ∙ p))
        ]
      ]

  module _ (replies : Uuid → Reply × Reply)
      (answered : (id : Uuid) → replies id ≡ (Reply.answered, Reply.answered)) where
    -- A transaction that was created, and the invalidation of the accounts that the request names, all of whose commands are
    -- answered, keep a coherent cache coherent.
    pub create_transaction-IsCoherent :
        (payload : TransactionCreate) (user_id : Uuid) (s : Session) (store : R.Store)
        {loaded : Loaded} {s' : Session}
        → create_transaction payload user_id s ≡ (ok loaded, s')
        → IsLedger s.db
        → IsCoherent R J T s.db store
        → IsCoherent R J T s'.db
            (invalidated R T replies (to_set (map (λ e. e.account_id) payload.entries)) store)
    create_transaction-IsCoherent payload user_id s store {loaded} {s'} h inv coherent =
        let ids = to_set (map (λ (e : EntryCreate). e.account_id) payload.entries) in
        let c = create_transaction-ok payload user_id s h in
        let accounts : s'.db.accounts ≡ s.db.accounts =
          ap (λ (w : Session). w.db.accounts) c.logged
          ∙ ap (λ (w : Session). w.db.accounts) c.saved.after in
        write-IsCoherent ids s.db s'.db store (invalidated R T replies ids store)
          (λ id as_of miss. compute-same id as_of s.db s'.db accounts (
            create_transaction-balance payload user_id s id as_of h inv
            ∙ add_zero _ _ (
                own_balance-untouched id as_of loaded (
                  ap (λ l. contains l id) (create_transaction-account_ids payload user_id s h inv)
                  ∙ sym (contains-to_set id (map (λ e. e.account_id) payload.entries))
                  ∙ miss))))
          (invalidate-Fades R T replies ids store)
          (invalidate-AreGone R T replies ids store answered) coherent

    -- A transaction that was voided, and the invalidation of the accounts of its entries, all of whose commands are answered,
    -- keep a coherent cache coherent.
    pub void_transaction-IsCoherent :
        (id user_id : Uuid) (s : Session) (store : R.Store) {original reversal : Loaded}
        {s' : Session}
        → void_transaction id user_id s ≡ (ok (some (original, reversal)), s')
        → IsLedger s.db
        → IsCoherent R J T s.db store
        → IsCoherent R J T s'.db
            (invalidated R T replies (affected_account_ids original.entries) store)
    void_transaction-IsCoherent id user_id s store {original} {reversal} {s'} h inv coherent =
        let ids = affected_account_ids original.entries in
        let v = void_transaction-ok id user_id s h in
        let accounts : s'.db.accounts ≡ s.db.accounts =
          ap (λ (w : Session). w.db.accounts) v.logged
          ∙ ap (λ (w : Session). w.db.accounts) v.saved.after in
        write-IsCoherent ids s.db s'.db store (invalidated R T replies ids store)
          (λ account_id as_of miss. compute-same account_id as_of s.db s'.db accounts (
            sym (
              add_zero _ _ (
                own_balance-untouched account_id as_of original
                  (sym (contains-to_set account_id (entry_account_ids original.entries)) ∙ miss)))
            ∙ void_transaction-balance id user_id s account_id as_of h inv))
          (invalidate-Fades R T replies ids store)
          (invalidate-AreGone R T replies ids store answered) coherent
