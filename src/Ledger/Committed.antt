-- ===== src/Ledger/Committed.antt =====
-- The requests of the transaction service as `get_db` runs them: all that they write is published
-- together with its audit log, or nothing is.
use payment_ledger_api.Common.{
  ℕ, ◌≡◌, refl, ap, ◌∙◌, Option, some, none, List, [], ◌∷◌, ◌++◌, arith, string_eq,
}
use payment_ledger_api.Model.{Uuid, Date, Entry}
use payment_ledger_api.Errors.{Error, ok, err}
use payment_ledger_api.Schemas.{TransactionCreate}
use payment_ledger_api.Session.{Session, NewAuditLog, pure, lift, get, draw, ◌>>=◌, get_db}
use payment_ledger_api.Session.Laws.{
  KeepsCommitted, KeepsCommitted-bind, KeepsCommitted-draw, KeepsCommitted-get, KeepsCommitted-pure,
  KeepsCommitted-lift, keeps_rules,
}
use payment_ledger_api.Session.Atomic.{audit_rows, get_db-ok, get_db-err, published}
use payment_ledger_api.Repositories.Audit.{log}
use payment_ledger_api.Repositories.Transactions.{
  NewTransaction, NewEntry, Loaded, save, add_all, add_entry, entry_row, find_by_id_with_entries,
  mark_voided_if_posted,
}
use payment_ledger_api.Services.Transactions.{
  create_transaction, void_transaction, void_found, resolve_usd_conversion_rate,
}
use payment_ledger_api.Services.Transactions.Create.{create_transaction-ok, created_log}
use payment_ledger_api.Services.Transactions.Void.{void_transaction-ok, void_log, reversal_log}
use payment_ledger_api.Ledger.{IsLedger}
use payment_ledger_api.Ledger.Requests.{create_transaction-IsLedger, void_transaction-IsLedger}
use payment_ledger_api.Ledger.Lifecycle.{void_transaction-find}
use payment_ledger_api.Ledger.Reversal.{create_transaction-find}

add_entry-KeepsCommitted : (e : Entry) → KeepsCommitted (add_entry e)
unfolding add_entry
add_entry-KeepsCommitted e = record { at = λ s. ground arith }

add_all-KeepsCommitted : (id : Uuid) (news : List NewEntry) → KeepsCommitted (add_all id news)
unfolding add_all
add_all-KeepsCommitted id [] = KeepsCommitted-pure tt
add_all-KeepsCommitted id (new ∷ rest) = KeepsCommitted-bind draw _ KeepsCommitted-draw (λ i.
    KeepsCommitted-bind (add_entry (entry_row i id new)) _
      (add_entry-KeepsCommitted (entry_row i id new)) (λ _. add_all-KeepsCommitted id rest))

log-KeepsCommitted :
    (u : Uuid) (t : _) (e : Uuid) (a : _) (b c : _) → KeepsCommitted (log u t e a b c)
unfolding log
log-KeepsCommitted u t e a b c = record { at = λ s. refl }

save-KeepsCommitted : (new : NewTransaction) (news : List NewEntry) → KeepsCommitted (save new news)
unfolding save
save-KeepsCommitted new news = search (keeps_rules, add_all-KeepsCommitted)

resolve-KeepsCommitted :
    (code : _) (on : Date) → KeepsCommitted (resolve_usd_conversion_rate code on)
unfolding resolve_usd_conversion_rate
resolve-KeepsCommitted code on = record { at = λ s. ground arith }

pub create_transaction-KeepsCommitted :
    (payload : TransactionCreate) (user_id : Uuid)
    → KeepsCommitted (create_transaction payload user_id)
unfolding create_transaction
create_transaction-KeepsCommitted payload user_id =
    search (keeps_rules, save-KeepsCommitted, log-KeepsCommitted, resolve-KeepsCommitted) depth 20

mark-KeepsCommitted : (id : Uuid) → KeepsCommitted (mark_voided_if_posted id)
unfolding mark_voided_if_posted
mark-KeepsCommitted id = record { at = λ s. refl }

pub void_found-KeepsCommitted :
    (found : Loaded) (id user_id : Uuid) → KeepsCommitted (void_found found id user_id)
unfolding void_found
void_found-KeepsCommitted found id user_id =
    search (keeps_rules, save-KeepsCommitted, log-KeepsCommitted, mark-KeepsCommitted) depth 20

pub void_transaction-KeepsCommitted :
    (id user_id : Uuid) → KeepsCommitted (void_transaction id user_id)
unfolding void_transaction
void_transaction-KeepsCommitted id user_id =
    KeepsCommitted-bind (get (λ s. s.db)) _ (KeepsCommitted-get (λ s. s.db)) (λ db.
      KeepsCommitted-bind (lift (find_by_id_with_entries id db)) _ (KeepsCommitted-lift _) next)
  where
    next :
        (found : Option Loaded)
        → KeepsCommitted {A = Option (Loaded × Loaded)} (elim found [
          | none ↦ pure none
          | some original ↦ (void_found original id user_id >>= λ p. pure (some p))
        ])
    next none = KeepsCommitted-pure none
    next (some found) =
        KeepsCommitted-bind (void_found found id user_id) _
          (void_found-KeepsCommitted found id user_id) (λ p. KeepsCommitted-pure (some p))

-- The tables that the invariant reads are published as they were.
pub published-IsLedger : (s : Session) → IsLedger s.db → IsLedger (published s).committed
published-IsLedger s inv = record {
  balanced = inv.balanced;
  linked = inv.linked;
  distinct = inv.distinct;
  storable = inv.storable;
  texts = inv.texts;
}

published-logs :
    (s s₁ : Session) (news : List NewAuditLog)
    → s₁.db.audit_logs ≡ s.db.audit_logs
    → s₁.started ≡ s.started
    → s₁.added ≡ news
    → (published s₁).committed.audit_logs
      ≡ s.db.audit_logs ++ audit_rows s₁.uuid4 s₁.draws s.started news
published-logs s s₁ news p q r = λ i. p i ++ audit_rows s₁.uuid4 s₁.draws (q i) (r i)

-- What a request has published that returned: a ledger that keeps the invariant, and an audit log
-- of what was done, after all that was logged before.
pub record IsPublished (news : List NewAuditLog) (s s' : Session) : Type 0 where
  pub ledger : IsLedger s'.committed
  pub first_id : ℕ
  pub uuid4 : ℕ → Uuid
  pub audited :
      s'.committed.audit_logs ≡ s.db.audit_logs ++ audit_rows uuid4 first_id s.started news

publish-intro :
    (s s₁ s' : Session) (news : List NewAuditLog)
    → s' ≡ published s₁
    → IsLedger s₁.db
    → s₁.db.audit_logs ≡ s.db.audit_logs
    → s₁.started ≡ s.started
    → s₁.added ≡ news
    → IsPublished news s s'
publish-intro s s₁ s' news after inv p q r = record {
  ledger = rw after (published-IsLedger s₁ inv);
  first_id = s₁.draws;
  uuid4 = s₁.uuid4;
  audited = rw after (published-logs s s₁ news p q r);
}

-- A request to create a transaction that returns, in a session to which no object was added yet and
-- whose ledger keeps the invariant, has published a ledger that keeps the invariant, in which the transaction is found as it was
-- returned, and exactly one more audit log, which records it.
pub get_db-create_transaction :
    (payload : TransactionCreate) (user_id : Uuid) (s : Session) {loaded : Loaded} {s' : Session}
    → get_db (create_transaction payload user_id) s ≡ (ok loaded, s')
    → IsLedger s.db
    → s.added ≡ []
    → IsPublished (created_log user_id loaded ∷ []) s s'
      × (find_by_id_with_entries loaded.id s'.committed ≡ ok (some loaded))
unfolding find_by_id_with_entries
get_db-create_transaction payload user_id s {loaded} {s'} h inv clean =
    let (s₁, p, fired, after) = get_db-ok (create_transaction payload user_id) s h in
    let c = create_transaction-ok payload user_id s p in
    let news = created_log user_id loaded ∷ [] in
    let first = ap (λ (w : Session). w.added ++ news) c.saved.after ∙ ap (λ l. l ++ news) clean in
    (
      publish-intro s s₁ s' news after (create_transaction-IsLedger payload user_id s p inv)
          (ap (λ (w : Session). w.db.audit_logs) c.logged
            ∙ ap (λ (w : Session). w.db.audit_logs) c.saved.after)
          (ap (λ (w : Session). w.started) c.logged ∙ ap (λ (w : Session). w.started) c.saved.after)
          (ap (λ (w : Session). w.added) c.logged ∙ first),
      ap (λ (w : Session). find_by_id_with_entries loaded.id w.committed) after
          ∙ create_transaction-find payload user_id s p,
    )

-- A request to void a transaction that returns the original and the reversal, in a session to
-- which no object was added yet and whose ledger keeps the invariant, found the original before, and
-- has published a ledger that keeps the invariant, in which the original is found as VOIDED, and exactly two more audit
-- logs: of the reversal, and of the void with the state before it.
pub get_db-void_transaction :
    (id user_id : Uuid) (s : Session) {original reversal : Loaded} {s' : Session}
    → get_db (void_transaction id user_id) s ≡ (ok (some (original, reversal)), s')
    → IsLedger s.db
    → s.added ≡ []
    → (found : Loaded) × (find_by_id_with_entries id s.db ≡ ok (some found))
      × IsPublished
          (reversal_log user_id original reversal ∷ void_log user_id found original reversal ∷ [])
          s
          s'
      × (find_by_id_with_entries id s'.committed ≡ ok (some original))
unfolding find_by_id_with_entries
get_db-void_transaction id user_id s {original} {reversal} {s'} h inv clean =
    let (s₁, p, fired, after) = get_db-ok (void_transaction id user_id) s h in
    let v = void_transaction-ok id user_id s p in
    let one = reversal_log user_id original reversal ∷ [] in
    let two = void_log user_id v.found original reversal ∷ [] in
    let first =
      ap (λ (w : Session). (w.added ++ one) ++ two) v.saved.after
      ∙ ap (λ l. (l ++ one) ++ two) clean in
    (
      v.found,
      v.present,
      publish-intro s s₁ s' (one ++ two) after (void_transaction-IsLedger id user_id s p inv)
          (ap (λ (w : Session). w.db.audit_logs) v.logged
            ∙ ap (λ (w : Session). w.db.audit_logs) v.saved.after)
          (ap (λ (w : Session). w.started) v.logged ∙ ap (λ (w : Session). w.started) v.saved.after)
          (ap (λ (w : Session). w.added) v.logged ∙ first),
      ap (λ (w : Session). find_by_id_with_entries id w.committed) after
          ∙ void_transaction-find id user_id s p,
    )

-- A request to create a transaction that raises, in the service or at the COMMIT, leaves
-- the committed tables as they were, and nothing of its own in the session.
pub create_transaction-rollback :
    (payload : TransactionCreate) (user_id : Uuid) (s : Session) {e : Error} {s' : Session}
    → get_db (create_transaction payload user_id) s ≡ (err e, s')
    → (s'.committed ≡ s.committed) × (s'.db ≡ s.committed) × (s'.added ≡ []) × (s'.deferred ≡ [])
create_transaction-rollback payload user_id s h =
    get_db-err (create_transaction payload user_id) s h
      (create_transaction-KeepsCommitted payload user_id)

-- A request to void a transaction that raises, in the service or at the COMMIT, leaves the
-- committed tables as they were, and nothing of its own in the session.
pub void_transaction-rollback :
    (id user_id : Uuid) (s : Session) {e : Error} {s' : Session}
    → get_db (void_transaction id user_id) s ≡ (err e, s')
    → (s'.committed ≡ s.committed) × (s'.db ≡ s.committed) × (s'.added ≡ []) × (s'.deferred ≡ [])
void_transaction-rollback id user_id s h =
    get_db-err (void_transaction id user_id) s h (void_transaction-KeepsCommitted id user_id)
