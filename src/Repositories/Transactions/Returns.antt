-- ===== src/Repositories/Transactions/Returns.antt =====
-- When `save` returns: nothing but a number that does not fit, an unknown account or currency, or an
-- id that is taken makes it raise.
use payment_ledger_api.Common.{
  ℕ, ◌+◌, ◌≤◌, ◌<◌, ◌≡◌, refl, ap, ◌∙◌, true, false, List, [], ◌∷◌, ◌++◌, any, All, length, arith,
  ◌==◌, nat_eq, string_eq, nat_beq_ne, nat_beq_refl, any-append,
}
use payment_ledger_api.Money.{bigint_limit}
use payment_ledger_api.Model.{Uuid, Account, Currency, Entry, Transaction}
use payment_ledger_api.Errors.{Result, ok, err}
use payment_ledger_api.Db.{
  Db, has_transaction, has_account, has_currency, is_text, insert_transaction, insert_entry,
}
use payment_ledger_api.Session.{Session, Action, draw, query, lift, execute, ◌>>=◌}
use payment_ledger_api.Session.Laws.{bind_intro}
use payment_ledger_api.Repositories.{scalar_one}
use payment_ledger_api.Repositories.Transactions.{
  NewTransaction, NewEntry, Loaded, transaction_row, entry_row, add_entry, add_all, save,
  with_entries, select_by_id,
}
use payment_ledger_api.Repositories.Transactions.Save.{
  with_rows, with_header, select_new, rows, add_all-ok,
}

-- What a new entry needs to pass the constraints of its table.
pub record IsInsertable (accounts : List Account) (currencies : List Currency) (new : NewEntry)
    : Type 0 where
  pub positive : 0 < new.amount
  pub amount_fits : new.amount < bigint_limit
  pub usd_fits : new.converted_amount_usd < bigint_limit
  pub account : any (λ a. a.id == new.account_id) accounts ≡ true
  pub currency : any (λ c. c.code == new.currency) currencies ≡ true

-- From the draw `n` on, `uuid4` gives ids that are new, and never one twice.
pub record IsFresh (uuid4 : ℕ → Uuid) (draws : ℕ) (db : Db) : Type 0 where
  pub transaction : (n : ℕ) → draws ≤ n → has_transaction (uuid4 n) db ≡ false
  pub entry : (n : ℕ) → draws ≤ n → any (λ r. r.id == uuid4 n) db.entries ≡ false
  pub distinct : (m n : ℕ) → uuid4 m ≡ uuid4 n → m ≡ n

insert_entry-returns :
    (e : Entry) (db : Db)
    → 0 < e.amount
    → e.amount < bigint_limit
    → e.converted_amount_usd < bigint_limit
    → any (λ r. r.id == e.id) db.entries ≡ false
    → has_transaction e.transaction_id db ≡ true
    → has_account e.account_id db ≡ true
    → has_currency e.currency db ≡ true
    → insert_entry e db ≡ ok (record db { entries = db.entries ++ e ∷ [] })
unfolding insert_entry
insert_entry-returns e db a b c d t u v = ground arith

-- A fresh id stays fresh when a row with an earlier one comes in.
IsFresh-row :
    (uuid4 : ℕ → Uuid) (draws : ℕ) (db : Db) (e : Entry)
    → IsFresh uuid4 draws db
    → e.id ≡ uuid4 draws
    → IsFresh uuid4 (draws + 1) (record db { entries = db.entries ++ e ∷ [] })
IsFresh-row uuid4 draws db e fresh same = record {
  transaction = λ n h. fresh.transaction n (omega arith);
  entry = λ n h. new n h;
  distinct = fresh.distinct;
}
  where
    new : (n : ℕ) → draws + 1 ≤ n → any (λ r. r.id == uuid4 n) (db.entries ++ e ∷ []) ≡ false
    new n h =
        let apart : (uuid4 draws == uuid4 n) ≡ false =
          nat_beq_ne (uuid4 draws) (uuid4 n)
            (λ k. absurd (omega (arith, fresh.distinct draws n k))) in
        any-append (λ r. r.id == uuid4 n) db.entries (e ∷ [])
        ∙ rw (fresh.entry n (omega arith), same, apart) refl

execute-returns :
    (f : Db → Result Db) (s : Session) {db : Db}
    → f s.db ≡ ok db
    → execute f s ≡ (ok tt, record s { db = db })
execute-returns f s h =
    ap (λ r. elim r [ ok db ↦ (ok tt, record s { db = db }) | err e ↦ (err e, s) ]) h

add_entry-returns :
    (e : Entry) (s : Session)
    → insert_entry e s.db ≡ ok (record s.db { entries = s.db.entries ++ e ∷ [] })
    → add_entry e s ≡ (ok tt, with_rows (e ∷ []) s.draws s)
unfolding add_entry
add_entry-returns e s h =
    bind_intro (execute (insert_entry e))
      (λ _ s. (ok tt, record s { deferred = s.deferred ++ e ∷ [] })) s
      (execute-returns (insert_entry e) s h)

add_all-returns :
    (id : Uuid) (news : List NewEntry) (s : Session)
    → has_transaction id s.db ≡ true
    → IsFresh s.uuid4 s.draws s.db
    → All (IsInsertable s.db.accounts s.db.currencies) news
    → (s' : Session) × (add_all id news s ≡ (ok tt, s'))
unfolding add_all draw
add_all-returns id [] s t fresh h = (s, refl)
add_all-returns id (new ∷ rest) s t fresh h =
    let e = entry_row (s.uuid4 s.draws) id new in
    let inserted =
      insert_entry-returns e s.db h.0.positive h.0.amount_fits h.0.usd_fits
        (fresh.entry s.draws (omega arith)) t h.0.account h.0.currency in
    let s₀ = record s { draws = s.draws + 1 } in
    let (s', p) =
      add_all-returns id rest (with_rows (e ∷ []) (s.draws + 1) s) t
        (IsFresh-row s.uuid4 s.draws s.db e fresh refl) h.1 in
    (s', bind_intro (add_entry e) (λ _. add_all id rest) s₀ (add_entry-returns e s₀ inserted) ∙ p)

insert_transaction-returns :
    (t : Transaction) (db : Db)
    → is_text t.description ≡ true
    → has_transaction t.id db ≡ false
    → insert_transaction t db ≡ ok (record db { transactions = db.transactions ++ t ∷ [] })
unfolding insert_transaction
insert_transaction-returns t db x h = ground arith

-- A fresh id stays fresh when a header with an earlier one comes in.
IsFresh-header :
    (uuid4 : ℕ → Uuid) (draws : ℕ) (db : Db) (t : Transaction)
    → IsFresh uuid4 draws db
    → t.id ≡ uuid4 draws
    → IsFresh uuid4 (draws + 1) (record db { transactions = db.transactions ++ t ∷ [] })
IsFresh-header uuid4 draws db t fresh same = record {
  transaction = λ n h. new n h;
  entry = λ n h. fresh.entry n (omega arith);
  distinct = fresh.distinct;
}
  where
    new : (n : ℕ) → draws + 1 ≤ n → any (λ r. r.id == uuid4 n) (db.transactions ++ t ∷ []) ≡ false
    new n h =
        let apart : (uuid4 draws == uuid4 n) ≡ false =
          nat_beq_ne (uuid4 draws) (uuid4 n)
            (λ k. absurd (omega (arith, fresh.distinct draws n k))) in
        any-append (λ r. r.id == uuid4 n) db.transactions (t ∷ [])
        ∙ rw (fresh.transaction n (omega arith), same, apart) refl

has_new : (t : Transaction) (ts : List Transaction) → any (λ r. r.id == t.id) (ts ++ t ∷ []) ≡ true
has_new t ts = any-append (λ r. r.id == t.id) ts (t ∷ []) ∙ ground (arith, nat_beq_refl t.id)

-- The rest of `save`, once the header is in.
abbrev after_header : Uuid → List NewEntry → Action Loaded
after_header id news s =
    (add_all id news >>= λ _. query (select_by_id id) >>= λ found. lift (scalar_one found)) s

select_returns :
    (t : Transaction) (news : List NewEntry) (s : Session) (s₂ : Session)
    → has_transaction t.id s.db ≡ false
    → s₂
      ≡ with_rows
          (rows s.uuid4 (s.draws + 1) t.id news)
          (s.draws + 1 + length news)
          (with_header t (s.draws + 1) s)
    → (loaded : Loaded) × (scalar_one (select_by_id t.id s₂.db) ≡ ok loaded)
unfolding scalar_one
select_returns t news s s₂ unused after =
    let es = rows s.uuid4 (s.draws + 1) t.id news in
    (
      with_entries s₂.db t,
      rw after (ap scalar_one (select_new t es (s.draws + 1) (s.draws + 1 + length news) s unused)),
    )

-- `save` of a description that is a text, under fresh ids, returns what it was given.
pub save-returns :
    (new : NewTransaction) (news : List NewEntry) (s : Session)
    → is_text new.description ≡ true
    → IsFresh s.uuid4 s.draws s.db
    → All (IsInsertable s.db.accounts s.db.currencies) news
    → (loaded : Loaded) × (s' : Session) × (save new news s ≡ (ok loaded, s'))
unfolding save draw
save-returns new news s text fresh h =
    let t = transaction_row (s.uuid4 s.draws) s.started new in
    let s₀ = record s { draws = s.draws + 1 } in
    let s₁ = with_header t (s.draws + 1) s in
    let unused = fresh.transaction s.draws (omega arith) in
    let (s₂, p) =
      add_all-returns t.id news s₁ (has_new t s.db.transactions)
        (IsFresh-header s.uuid4 s.draws s.db t fresh refl) h in
    let (loaded, q) = select_returns t news s s₂ unused (add_all-ok t.id news s₁ p).0 in
    (
      loaded,
      s₂,
      bind_intro (execute (insert_transaction t)) (λ _. after_header t.id news) s₀
            (execute-returns (insert_transaction t) s₀
              (insert_transaction-returns t s.db text unused))
          ∙ bind_intro (add_all t.id news) (λ _ w. (scalar_one (select_by_id t.id w.db), w)) s₁ p
          ∙ ap (λ r. (r, s₂)) q,
    )
