-- ===== src/Ledger/Lifecycle.antt =====
-- The life of a transaction: POSTED once created, VOIDED at most once, its entries never touched.
use mathlib.Core.List.{append-nil}
use payment_ledger_api.Common.{
  filter-none, ◌≢◌, filter-and, filter-append, ℕ, ◌+◌, ◌≡◌, refl, ap, sym, ◌∙◌, Bool, false, some,
  List, [], ◌∷◌, map, filter, any, length, arith, ◌==◌, nat_eq, nat_beq_iff, nat_beq_refl,
  Bool-cases, inl, inr,
}
use payment_ledger_api.Model.{Uuid, TransactionStatus, status_eq, Transaction}
use payment_ledger_api.Errors.{ok, err, conflict_error, already_voided}
use payment_ledger_api.Db.{Db}
use payment_ledger_api.Session.{Session}
use payment_ledger_api.Repositories.Transactions.{
  NewEntry, Loaded, find_by_id_with_entries, is_voidable, void_row, mark_voided_if_posted,
}
use payment_ledger_api.Repositories.Transactions.Save.{rows}
use payment_ledger_api.Repositories.Transactions.Find.{find-one, find-some, find-intro}
use payment_ledger_api.Services.Transactions.{
  void_transaction, void_found, as_voided, reversal_entry,
}
use payment_ledger_api.Services.Transactions.Void.{void_transaction-ok}

abbrev pub is_posted : Transaction → Bool
is_posted t = t.status == TransactionStatus.posted

cons-nil : {t : Transaction} {ts : List Transaction} → t ∷ ts ≡ [] → ⊥
cons-nil h = cc

-- The rows that the UPDATE hits are those that the query by id finds and that are POSTED.
pub voidable-found :
    (id : Uuid) (db : Db) {found : Loaded}
    → find_by_id_with_entries id db ≡ ok (some found)
    → filter (is_voidable id) db.transactions ≡ filter is_posted (found.header ∷ [])
voidable-found id db h =
    filter-and (λ t. t.id == id) is_posted db.transactions
    ∙ ap (filter is_posted) (find-one id db h)

one-posted :
    (t : Transaction) → length (filter is_posted (t ∷ [])) ≡ 1 → t.status ≡ TransactionStatus.posted
one-posted t h = ground arith

none-posted :
    (t : Transaction) → t.status ≢ TransactionStatus.posted → filter is_posted (t ∷ []) ≡ []
none-posted t h = ground arith

posted-found :
    (id user_id : Uuid) (s : Session) {original reversal : Loaded} {s' : Session}
    (h : void_transaction id user_id s ≡ (ok (some (original, reversal)), s'))
    → (void_transaction-ok id user_id s h).found.status ≡ TransactionStatus.posted
posted-found id user_id s h =
    let v = void_transaction-ok id user_id s h in
    one-posted v.found.header (ap length (sym (voidable-found id s.db v.present)) ∙ v.won)

voided_ne_posted : TransactionStatus.voided ≢ TransactionStatus.posted
voided_ne_posted h = cc

-- Only a POSTED transaction can be voided, and the void returns it as VOIDED with its entries and
-- all else as they were.
pub void_transaction-posted :
    (id user_id : Uuid) (s : Session) {original reversal : Loaded} {s' : Session}
    → void_transaction id user_id s ≡ (ok (some (original, reversal)), s')
    → (found : Loaded) × (find_by_id_with_entries id s.db ≡ ok (some found))
      × (found.status ≡ TransactionStatus.posted)
      × (original ≡ as_voided found)
void_transaction-posted id user_id s h =
    let v = void_transaction-ok id user_id s h in
    (v.found, v.present, posted-found id user_id s h, v.original_lem)

map-void_row-none :
    (id : Uuid) (ts : List Transaction)
    → filter (is_voidable id) ts ≡ []
    → map (void_row id) ts ≡ ts
map-void_row-none id [] h = refl
map-void_row-none id (t ∷ ts) h = elim (Bool-cases (is_voidable id t)) [
  | inl hit ↦ absurd (cons-nil (rw hit at h))
  | inr miss ↦ rw miss (ap (λ us. t ∷ us) (map-void_row-none id ts (rw miss at h)))
]

-- A transaction that is found but is not POSTED cannot be voided: the answer is a conflict, and the tables are
-- as before.
pub void_transaction-conflict :
    (id user_id : Uuid) (s : Session) {found : Loaded}
    → find_by_id_with_entries id s.db ≡ ok (some found)
    → found.status ≢ TransactionStatus.posted
    → ((void_transaction id user_id s).0 ≡ err (conflict_error (already_voided id)))
      × ((void_transaction id user_id s).1.db ≡ s.db)
unfolding void_transaction void_found mark_voided_if_posted
void_transaction-conflict id user_id s {found} h other =
    let none_hit : filter (is_voidable id) s.db.transactions ≡ [] =
      voidable-found id s.db h ∙ none-posted found.header other in
    let zero_hit : length (filter (is_voidable id) s.db.transactions) ≡ 0 = ap length none_hit in
    let same = map-void_row-none id s.db.transactions none_hit in (ground arith, ground arith)

filter-void_row :
    (id : Uuid) (ts : List Transaction)
    → filter (λ t. t.id == id) (map (void_row id) ts)
      ≡ map (void_row id) (filter (λ t. t.id == id) ts)
filter-void_row id [] = refl
filter-void_row id (t ∷ ts) = elim (Bool-cases (t.id == id)) [
  | inl hit ↦ rw hit (ground (arith, filter-void_row id ts))
  | inr miss ↦ rw miss (ground (arith, filter-void_row id ts))
]

-- An id that the query found is not the new one.
found_ne_new :
    (id new : Uuid) (ts : List Transaction) {t : Transaction}
    → filter (λ r. r.id == id) ts ≡ t ∷ []
    → any (λ r. r.id == new) ts ≡ false
    → (new == id) ≡ false
found_ne_new id new ts h unused = elim (Bool-cases (new == id)) [
  | inl same ↦ absurd (
      cons-nil (
        sym h
        ∙ filter-none (λ r. r.id == id) ts
            (ap (λ i. any (λ r. r.id == i) ts) (sym ((nat_beq_iff new id).0 same)) ∙ unused)))
  | inr differ ↦ differ
]

rows-other :
    (uuid4 : ℕ → Uuid) (n : ℕ) (new id : Uuid) (news : List NewEntry)
    → (new == id) ≡ false
    → filter (λ e. e.transaction_id == id) (rows uuid4 n new news) ≡ []
rows-other uuid4 n new id [] h = refl
rows-other uuid4 n new id (x ∷ news) h = rw h (rows-other uuid4 (n + 1) new id news h)

void_row-posted :
    (id : Uuid) (t : Transaction)
    → t.id ≡ id
    → t.status ≡ TransactionStatus.posted
    → void_row id t ≡ record t { status = TransactionStatus.voided }
void_row-posted id t same posted = ground (arith, nat_beq_refl id)

-- After a void the transaction is found under its id as VOIDED, with its entries as they were.
pub void_transaction-find :
    (id user_id : Uuid) (s : Session) {original reversal : Loaded} {s' : Session}
    → void_transaction id user_id s ≡ (ok (some (original, reversal)), s')
    → find_by_id_with_entries id s'.db ≡ ok (some original)
void_transaction-find id user_id s {original} {reversal} {s'} h =
    let v = void_transaction-ok id user_id s h in
    let ts = s.db.transactions in
    let found = v.found.header in
    let new = s.uuid4 s.draws in
    let only = find-one id s.db v.present in
    let differ : (new == id) ≡ false =
      found_ne_new id new (map (void_row id) ts)
        (filter-void_row id ts ∙ ap (map (void_row id)) only) v.saved.unused in
    let es = rows s.uuid4 (s.draws + 1) new (map reversal_entry original.entries) in
    let header : filter (λ r. r.id == id) s'.db.transactions ≡ original.header ∷ [] =
      rw (v.logged, v.saved.after)
        (filter-append (λ r. r.id == id) (map (void_row id) ts) _
          ∙ rw differ (append-nil _)
          ∙ filter-void_row id ts
          ∙ ap (map (void_row id)) only
          ∙ ap (λ t. t ∷ [])
              (void_row-posted id found (find-some id s.db v.present).0
                  (posted-found id user_id s h)
                ∙ sym (ap (λ l. l.header) v.original_lem))) in
    let entries : filter (λ e. e.transaction_id == id) s'.db.entries ≡ original.entries =
      rw (v.logged, v.saved.after)
        (filter-append (λ e. e.transaction_id == id) s.db.entries es
          ∙ rw
              (rows-other s.uuid4 (s.draws + 1) new id (map reversal_entry original.entries) differ)
              (append-nil _)
          ∙ sym (find-some id s.db v.present).1
          ∙ sym (ap (λ l. l.entries) v.original_lem)) in
    find-intro id s'.db original.header original.entries header
      (ap (λ l. l.id) v.original_lem ∙ (find-some id s.db v.present).0) entries

-- In any later session that sees the tables as a void left them, a second void of the same
-- transaction is answered by a conflict and leaves the tables alone.
pub void_transaction-again :
    (id user_id again : Uuid) (s s₂ : Session) {original reversal : Loaded} {s₁ : Session}
    → void_transaction id user_id s ≡ (ok (some (original, reversal)), s₁)
    → s₂.db ≡ s₁.db
    → ((void_transaction id again s₂).0 ≡ err (conflict_error (already_voided id)))
      × ((void_transaction id again s₂).1.db ≡ s₂.db)
void_transaction-again id user_id again s s₂ {original} h same =
    void_transaction-conflict id again s₂ {found = original}
      (ap (find_by_id_with_entries id) same ∙ void_transaction-find id user_id s h)
      (λ posted.
        voided_ne_posted
          (sym (ap (λ l. l.status) (void_transaction-ok id user_id s h).original_lem) ∙ posted))
