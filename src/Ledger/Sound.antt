-- ===== src/Ledger/Sound.antt =====
-- What every request, and the rest of a void that found its transaction earlier, keeps: the invariant of
-- the ledger, and that nothing is reversed twice.
use mathlib.Core.Path.{subst}
use payment_ledger_api.Common.{◌≡◌, refl, ap, sym, ◌∙◌, Option, none, some, map, inl, inr, nat_eq}
use payment_ledger_api.Model.{Uuid, Direction}
use payment_ledger_api.Errors.{ok, Result-cases}
use payment_ledger_api.Schemas.{TransactionCreate}
use payment_ledger_api.Db.{Db}
use payment_ledger_api.Session.{Session, Action, get_db}
use payment_ledger_api.Session.Laws.{KeepsCommitted}
use payment_ledger_api.Session.Atomic.{get_db-ok, get_db-err}
use payment_ledger_api.Repositories.Transactions.{Loaded, find_by_id_with_entries}
use payment_ledger_api.Repositories.Transactions.Find.{find-some}
use payment_ledger_api.Services.Transactions.{
  create_transaction, void_transaction, void_found, reversal_entry, reversal_of,
}
use payment_ledger_api.Services.Transactions.Create.{create_transaction-ok}
use payment_ledger_api.Services.Transactions.Void.{
  void_found-VoidedFrom, void_transaction-found, void_transaction-missing, with_status,
}
use payment_ledger_api.Services.Admin.{
  create_account, create_currency, create_exchange_rate, create_user,
}
use payment_ledger_api.Services.Admin.Kept.{
  KeepsLedger, create_account-KeepsLedger, create_currency-KeepsLedger,
  create_exchange_rate-KeepsLedger, create_user-KeepsLedger,
}
use payment_ledger_api.Ledger.{IsLedger, save-IsLedger}
use payment_ledger_api.Ledger.Sums.{new_sum, new_sum-reversal}
use payment_ledger_api.Ledger.Requests.{create_transaction-IsLedger, with_status-IsLedger}
use payment_ledger_api.Ledger.Grows.{same_tables-IsLedger}
use payment_ledger_api.Ledger.Committed.{
  create_transaction-KeepsCommitted, void_transaction-KeepsCommitted, published-IsLedger,
}
use payment_ledger_api.Ledger.History.{IsOpened, Step, after}
use payment_ledger_api.Ledger.Once.{IsReversedOnce, IsReversedOnce-append, IsReversedOnce-void}

pub record IsSound (db : Db) : Type 0 where
  pub ledger : IsLedger db
  pub once : IsReversedOnce db.transactions

-- What was found was found under its id, and its entries balance.
abbrev pub IsFound : Uuid × Loaded → Type 0
IsFound (id, found) =
    (found.id ≡ id)
    × (new_sum Direction.debit (map reversal_entry found.entries)
        ≡ new_sum Direction.credit (map reversal_entry found.entries))

pub find-IsFound :
    (id : Uuid) (db : Db) (found : Loaded)
    → IsLedger db
    → find_by_id_with_entries id db ≡ ok (some found)
    → IsFound (id, found)
find-IsFound id db found inv h =
    let f = find-some id db h in
    (
      f.0,
      rw f.1 (
          new_sum-reversal Direction.debit id db.entries
          ∙ sym (inv.balanced id)
          ∙ sym (new_sum-reversal Direction.credit id db.entries)),
    )

module _ {ℓ} {A : Type ℓ} (handler : Action A) where
  pub after-IsSound :
      (db : Db) (s : Session)
      → IsOpened db s
      → KeepsCommitted handler
      → ((a : A) (s₁ : Session) → handler s ≡ (ok a, s₁) → IsSound s₁.db)
      → IsSound db
      → IsSound (after handler s)
  after-IsSound db s opened keeps k sound = elim (Result-cases (get_db handler s).0) [
    | inl (a, p) ↦
        (let (s₁, q, fired, done) = get_db-ok handler s (ap (λ r. (r, (get_db handler s).1)) p) in
          let next = k a s₁ q in
          subst (λ (w : Session). IsSound w.committed) (sym done)
            (record { ledger = published-IsLedger s₁ next.ledger; once = next.once }))
    | inr (e, p) ↦
        (let back = get_db-err handler s (ap (λ r. (r, (get_db handler s).1)) p) keeps in
          subst (λ d. IsSound d) (sym (back.0 ∙ opened.committed)) sound)
  ]

pub void_found-IsSound :
    (found : Loaded) (id user_id : Uuid) (s : Session) (pair : Loaded × Loaded) (s' : Session)
    → void_found found id user_id s ≡ (ok pair, s')
    → IsFound (id, found)
    → IsSound s.db
    → IsSound s'.db
void_found-IsSound found id user_id s (original, reversal) s' h f sound =
    let v = void_found-VoidedFrom found id user_id s h in
    let even : new_sum Direction.debit (map reversal_entry original.entries)
        ≡ new_sum Direction.credit (map reversal_entry original.entries) =
      rw v.original_lem f.1 in
    let same : original.id ≡ id = ap (λ (l : Loaded). l.id) v.original_lem ∙ f.0 in
    record {
      ledger = rw v.logged (
          save-IsLedger (with_status id s) (reversal_of original s.now)
            (map reversal_entry original.entries) v.saved even
            (with_status-IsLedger id s sound.ledger));
      once =
          rw (v.logged, v.saved.after)
            (IsReversedOnce-void id s.db.transactions _ sound.ledger.distinct v.won
              (ap (λ i. some i) same) sound.once);
    }

create_transaction-IsSound :
    (payload : TransactionCreate) (user_id : Uuid) (s : Session) (loaded : Loaded) (s' : Session)
    → create_transaction payload user_id s ≡ (ok loaded, s')
    → IsSound s.db
    → IsSound s'.db
create_transaction-IsSound payload user_id s loaded s' h sound =
    let c = create_transaction-ok payload user_id s h in
    record {
      ledger = create_transaction-IsLedger payload user_id s h sound.ledger;
      once =
          rw (c.logged, c.saved.after) (IsReversedOnce-append s.db.transactions _ refl sound.once);
    }

void_transaction-IsSound :
    (id user_id : Uuid) (s : Session) (o : Option (Loaded × Loaded)) (s' : Session)
    → void_transaction id user_id s ≡ (ok o, s')
    → IsSound s.db
    → IsSound s'.db
void_transaction-IsSound id user_id s none s' h sound =
    subst (λ (w : Session). IsSound w.db) (sym (void_transaction-missing id user_id s h).1) sound
void_transaction-IsSound id user_id s (some pair) s' h sound =
    let (found, present, f) = void_transaction-found id user_id s h in
    void_found-IsSound found id user_id s pair s' f
      (find-IsFound id s.db found sound.ledger present) sound

module _ {ℓ} {A : Type ℓ} (handler : Action A) (kept : KeepsLedger handler) where
  creation-IsSound :
      (db : Db) (s : Session) → IsOpened db s → IsSound db → IsSound (after handler s)
  creation-IsSound db s opened sound =
      after-IsSound handler db s opened kept.committed
        (λ a s₁ p.
          let ts = ap (λ r. r.1.db.transactions) (sym p) ∙ kept.transactions s in
          let es = ap (λ r. r.1.db.entries) (sym p) ∙ kept.entries s in
          let here : IsSound s.db = rw opened.sees sound in
          record {
            ledger = same_tables-IsLedger s.db s₁.db es ts here.ledger;
            once = rw ts here.once;
          })
        sound

pub Step-IsSound : {db db' : Db} → Step db db' → IsSound db → IsSound db'
Step-IsSound {db} (Step.post payload user_id s opened) sound =
    after-IsSound (create_transaction payload user_id) db s opened
      (create_transaction-KeepsCommitted payload user_id)
      (λ loaded s₁ p.
        create_transaction-IsSound payload user_id s loaded s₁ p (rw opened.sees sound))
      sound
Step-IsSound {db} (Step.void id user_id s opened) sound =
    after-IsSound (void_transaction id user_id) db s opened
      (void_transaction-KeepsCommitted id user_id)
      (λ o s₁ p. void_transaction-IsSound id user_id s o s₁ p (rw opened.sees sound)) sound
Step-IsSound {db} (Step.add_account payload user_id s opened) sound =
    creation-IsSound (create_account payload user_id) (create_account-KeepsLedger payload user_id)
      db s opened sound
Step-IsSound {db} (Step.add_currency payload user_id s opened) sound =
    creation-IsSound (create_currency payload user_id) (create_currency-KeepsLedger payload user_id)
      db s opened sound
Step-IsSound {db} (Step.add_rate payload s opened) sound =
    creation-IsSound (create_exchange_rate payload) (create_exchange_rate-KeepsLedger payload) db s
      opened sound
Step-IsSound {db} (Step.add_user h email password role s opened) sound =
    creation-IsSound (create_user h email password role)
      (create_user-KeepsLedger h email password role) db s opened sound
