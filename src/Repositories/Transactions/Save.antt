-- ===== src/Repositories/Transactions/Save.antt =====
-- What `save` has done when it returns: the header and the entries are in the tables, under one
-- new id, and nothing else has changed.
use mathlib.Core.List.{append-nil, append_assoc}
use native.Mathlib.Nat.{add-zero}
use payment_ledger_api.Money.{bigint_limit}
use payment_ledger_api.Common.{
  some, ◌<◌, All, filter, any, ◌==◌, nat_eq, nat_beq_refl, ap, sym, ◌∙◌, inl, inr, ℕ, ◌+◌, ◌≡◌,
  true, false, List, [], ◌∷◌, ◌++◌, length, arith,
}
use payment_ledger_api.Model.{Uuid, Entry, Transaction}
use payment_ledger_api.Errors.{ok, Result-cases}
use payment_ledger_api.Db.{Db, has_transaction, is_text, insert_transaction, insert_entry}
use payment_ledger_api.Session.{Session, Action, draw, query, lift, ◌>>=◌, ◌>>◌}
use payment_ledger_api.Session.Laws.{bind_ok}
use payment_ledger_api.Repositories.{scalar_one, scalar_one_or_none}
use payment_ledger_api.Repositories.Transactions.{
  NewTransaction, NewEntry, Loaded, transaction_row, entry_row, add_entry, add_all, select_by_id,
  with_entries, save, find_by_id_with_entries,
}

-- The rows that `add_all` makes, with the ids of the calls from number `n` on.
abbrev pub rows : (ℕ → Uuid) → ℕ → Uuid → List NewEntry → List Entry
rows uuid4 n id [] = []
rows uuid4 n id (new ∷ rest) = entry_row (uuid4 n) id new ∷ rows uuid4 (n + 1) id rest

-- The session with some rows more.
abbrev pub with_rows : List Entry → ℕ → Session → Session
with_rows es n s = record s {
  db = record s.db { entries = s.db.entries ++ es };
  deferred = s.deferred ++ es;
  draws = n;
}

-- The CHECK of the table and the bounds of its columns.
pub record IsStorable (e : Entry) : Type 0 where
  pub positive : 0 < e.amount
  pub amount_fits : e.amount < bigint_limit
  pub usd_fits : e.converted_amount_usd < bigint_limit

pub insert_entry-ok :
    (e : Entry) (db : Db) {db' : Db}
    → insert_entry e db ≡ ok db'
    → (db' ≡ record db { entries = db.entries ++ e ∷ [] }) × IsStorable e
unfolding insert_entry
insert_entry-ok e db h = ground arith

add_entry-ok :
    (e : Entry) (s : Session) {s' : Session}
    → add_entry e s ≡ (ok tt, s')
    → (s' ≡ with_rows (e ∷ []) s.draws s) × IsStorable e
unfolding add_entry
add_entry-ok e s h = elim (Result-cases (insert_entry e s.db)) [
  | inl (db', p) ↦ ground (arith, insert_entry-ok e s.db p)
  | inr (x, p) ↦ ground arith
]

with_rows-nil : (s : Session) → with_rows [] (s.draws + 0) s ≡ s
with_rows-nil s = rw (append-nil, append-nil, add-zero)

with_rows-with_rows :
    (es fs : List Entry) (n m : ℕ) (s : Session)
    → with_rows fs m (with_rows es n s) ≡ with_rows (es ++ fs) m s
with_rows-with_rows es fs n m s = simp append_assoc

pub add_all-ok :
    (id : Uuid) (news : List NewEntry) (s : Session) {s' : Session}
    → add_all id news s ≡ (ok tt, s')
    → (s' ≡ with_rows (rows s.uuid4 s.draws id news) (s.draws + length news) s)
      × All IsStorable (rows s.uuid4 s.draws id news)
unfolding add_all
add_all-ok id [] s h = (ap (λ p. p.1) (sym h) ∙ sym (with_rows-nil s), tt)
add_all-ok id (new ∷ rest) s h =
    let e = entry_row (s.uuid4 s.draws) id new in
    let s₀ = record s { draws = s.draws + 1 } in
    let (a, s₁, p, q) = bind_ok (add_entry e) (λ _. add_all id rest) s₀ h in
    let first = add_entry-ok e s₀ p in
    let more = add_all-ok id rest (with_rows (e ∷ []) (s.draws + 1) s) (rw first.0 at q) in
    let es = rows s.uuid4 (s.draws + 1) id rest in
    (
      more.0
          ∙ with_rows-with_rows (e ∷ []) es (s.draws + 1) (s.draws + 1 + length rest) s
          ∙ ap (λ n. with_rows (e ∷ es) n s) (omega arith),
      (first.1, more.1),
    )

-- What a `save` that returned has done.
pub record Saved (new : NewTransaction) (news : List NewEntry) (s : Session) (loaded : Loaded)
    (s' : Session) : Type 0 where
  pub header : loaded.header ≡ transaction_row (s.uuid4 s.draws) s.started new
  pub unused : has_transaction (s.uuid4 s.draws) s.db ≡ false
  pub text : is_text new.description ≡ true
  pub storable : All IsStorable (rows s.uuid4 (s.draws + 1) (s.uuid4 s.draws) news)
  pub after :
      s'
      ≡ with_rows
          (rows s.uuid4 (s.draws + 1) (s.uuid4 s.draws) news)
          (s.draws + 1 + length news)
          (record s {
            db = record s.db {
              transactions =
                  s.db.transactions ++ transaction_row (s.uuid4 s.draws) s.started new ∷ [];
            };
          })
  pub loaded_entries :
      loaded.entries ≡ filter (λ e. e.transaction_id == s.uuid4 s.draws) s'.db.entries

pub insert_transaction-ok :
    (t : Transaction) (db : Db) {db' : Db}
    → insert_transaction t db ≡ ok db'
    → (db' ≡ record db { transactions = db.transactions ++ t ∷ [] })
      × (has_transaction t.id db ≡ false)
      × (is_text t.description ≡ true)
unfolding insert_transaction
insert_transaction-ok t db h = ground arith

-- A row under an id that no other row has is the only one that a query by id finds.
filter-append_new :
    (t : Transaction) (ts : List Transaction)
    → any (λ r. r.id == t.id) ts ≡ false
    → filter (λ r. r.id == t.id) (ts ++ t ∷ []) ≡ t ∷ []
filter-append_new t [] h = ground (arith, nat_beq_refl t.id)
filter-append_new t (r ∷ ts) h = ground (arith, filter-append_new t ts)

-- The rest of `save`, once the header is in.
abbrev save_entries : Uuid → List NewEntry → Action Loaded
save_entries id news = do add_all id news; found ← query (select_by_id id); lift (scalar_one found)

abbrev pub with_header : Transaction → ℕ → Session → Session
with_header t n s = record s {
  db = record s.db { transactions = s.db.transactions ++ t ∷ [] };
  draws = n;
}

pub select_new :
    (t : Transaction) (es : List Entry) (n m : ℕ) (s : Session)
    → has_transaction t.id s.db ≡ false
    → select_by_id t.id (with_rows es m (with_header t n s)).db
      ≡ with_entries (with_rows es m (with_header t n s)).db t ∷ []
select_new t es n m s new = rw (filter-append_new t s.db.transactions new)

save_entries-ok :
    (t : Transaction) (news : List NewEntry) (n : ℕ) (s : Session) {loaded : Loaded} {s' : Session}
    → has_transaction t.id s.db ≡ false
    → save_entries t.id news (with_header t n s) ≡ (ok loaded, s')
    → (s' ≡ with_rows (rows s.uuid4 n t.id news) (n + length news) (with_header t n s))
      × (loaded ≡ with_entries s'.db t)
      × All IsStorable (rows s.uuid4 n t.id news)
unfolding scalar_one
save_entries-ok t news n s {loaded} {s'} new h =
    let (a, s₁, p, q) =
      bind_ok (add_all t.id news) (λ _ s₁. (scalar_one (select_by_id t.id s₁.db), s₁))
        (with_header t n s) h in
    let all = add_all-ok t.id news (with_header t n s) p in
    let es = rows s.uuid4 n t.id news in
    let q' = rw all.0 at q in
    let q'' = rw (select_new t es n (n + length news) s new) at q' in
    (ground arith, ground arith, all.1)

pub save-ok :
    (new : NewTransaction) (news : List NewEntry) (s : Session) {loaded : Loaded} {s' : Session}
    → save new news s ≡ (ok loaded, s')
    → Saved new news s loaded s'
unfolding save draw
save-ok new news s {loaded} {s'} h =
    let t = transaction_row (s.uuid4 s.draws) s.started new in
    elim (Result-cases (insert_transaction t s.db)) [
      | inl (db', p) ↦
          (let inserted = insert_transaction-ok t s.db p in
            let h' : save_entries t.id news (with_header t (s.draws + 1) s) ≡ (ok loaded, s') =
              ground arith in
            let done = save_entries-ok t news (s.draws + 1) s inserted.1 h' in
            record {
              header = ap (λ l. l.header) done.1;
              unused = inserted.1;
              text = inserted.2;
              storable = done.2;
              after = done.0;
              loaded_entries = ap (λ l. l.entries) done.1;
            })
      | inr (x, p) ↦ ground arith
    ]

-- What `save` returned is found again under its id.
pub save-find :
    (new : NewTransaction) (news : List NewEntry) (s : Session) {loaded : Loaded} {s' : Session}
    → Saved new news s loaded s'
    → find_by_id_with_entries loaded.id s'.db ≡ ok (some loaded)
unfolding find_by_id_with_entries scalar_one_or_none
save-find new news s {loaded} {s'} saved =
    let t = transaction_row (s.uuid4 s.draws) s.started new in
    let es = rows s.uuid4 (s.draws + 1) t.id news in
    let n = s.draws + 1 + length news in
    let one : select_by_id t.id s'.db ≡ with_entries s'.db t ∷ [] =
      rw saved.after (select_new t es (s.draws + 1) n s saved.unused) in
    let whole : loaded ≡ with_entries s'.db t =
      λ i. record { header = saved.header i; entries = saved.loaded_entries i } in
    ap (λ (l : Loaded). scalar_one_or_none (select_by_id l.id s'.db)) whole
    ∙ ap scalar_one_or_none one
    ∙ ap (λ l. ok (some l)) (sym whole)
