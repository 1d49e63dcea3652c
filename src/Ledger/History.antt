-- ===== src/Ledger/History.antt =====
-- The committed tables over time: a step is one request that writes, as `get_db` runs it in a session
-- of its own, whether it is answered or refused.
use mathlib.Core.List.{append-nil, append_assoc}
use mathlib.Core.Path.{subst}
use payment_ledger_api.Common.{
  ◌≡◌, refl, ap, sym, ◌∙◌, String, Option, none, some, [], ◌++◌, inl, inr,
}
use payment_ledger_api.Model.{Uuid, UserRole}
use payment_ledger_api.Errors.{ok, Result-cases}
use payment_ledger_api.Schemas.{TransactionCreate}
use payment_ledger_api.Db.{Db}
use payment_ledger_api.Session.{Session, Action, get_db}
use payment_ledger_api.Session.Laws.{KeepsCommitted}
use payment_ledger_api.Session.Atomic.{get_db-ok, get_db-err, published, audit_rows}
use payment_ledger_api.Repositories.Transactions.{Loaded}
use payment_ledger_api.Repositories.Accounts.{NewAccount}
use payment_ledger_api.Repositories.Currencies.{NewCurrency, NewExchangeRate}
use payment_ledger_api.Services.Transactions.{create_transaction, void_transaction}
use payment_ledger_api.Services.Transactions.Create.{create_transaction-ok}
use payment_ledger_api.Services.Transactions.Void.{void_transaction-ok, void_transaction-missing}
use payment_ledger_api.Services.Admin.{
  create_account, create_currency, create_exchange_rate, create_user,
}
use payment_ledger_api.Services.Admin.Kept.{
  KeepsLedger, create_account-KeepsLedger, create_currency-KeepsLedger,
  create_exchange_rate-KeepsLedger, create_user-KeepsLedger,
}
use payment_ledger_api.Ledger.{IsLedger}
use payment_ledger_api.Ledger.Requests.{create_transaction-IsLedger, void_transaction-IsLedger}
use payment_ledger_api.Ledger.Committed.{
  create_transaction-KeepsCommitted, void_transaction-KeepsCommitted, published-IsLedger,
}
use payment_ledger_api.Ledger.Grows.{
  Grows, Grows-refl, Grows-trans, AreKept-refl, AreKept-void_row, same_tables-Grows,
  same_tables-IsLedger,
}

-- A session as a request gets it: it sees the committed tables, and has written nothing.
pub record IsOpened (db : Db) (s : Session) : Type 0 where
  pub sees : s.db ≡ db
  pub committed : s.committed ≡ db
  pub added : s.added ≡ []
  pub deferred : s.deferred ≡ []

-- The committed tables after a request.
abbrev pub after {ℓ} : {A : Type ℓ} → Action A → Session → Db
after handler s = (get_db handler s).1.committed

-- One request that writes; the hash of a password is bcrypt's, a parameter.
pub data Step (db : Db) : Db → Type 0 where
  post :
      (payload : TransactionCreate) (user_id : Uuid) (s : Session)
      → IsOpened db s
      → Step db (after (create_transaction payload user_id) s)
  void :
      (id user_id : Uuid) (s : Session)
      → IsOpened db s
      → Step db (after (void_transaction id user_id) s)
  add_account :
      (payload : NewAccount) (user_id : Uuid) (s : Session)
      → IsOpened db s
      → Step db (after (create_account payload user_id) s)
  add_currency :
      (payload : NewCurrency) (user_id : Uuid) (s : Session)
      → IsOpened db s
      → Step db (after (create_currency payload user_id) s)
  add_rate :
      (payload : NewExchangeRate) (s : Session)
      → IsOpened db s
      → Step db (after (create_exchange_rate payload) s)
  add_user :
      (get_password_hash : String → String) (email password : String) (role : UserRole)
      (s : Session)
      → IsOpened db s
      → Step db (after (create_user get_password_hash email password role) s)

-- Any number of requests, one after the other.
pub data Reaches (db : Db) : Db → Type 0 where
  here : Reaches db db
  next : {db₁ db₂ : Db} → Reaches db db₁ → Step db₁ db₂ → Reaches db db₂

-- What a part of a request does to the tables that it sees.
record IsContinued (db db' : Db) : Type 0 where
  grows : Grows db db'
  ledger : IsLedger db → IsLedger db'

published-Grows : (db : Db) (s : Session) → Grows db s.db → Grows db (published s).committed
published-Grows db s g =
    let rows = audit_rows s.uuid4 s.draws s.started s.added in
    record {
      new_entries = g.new_entries;
      entries = g.entries;
      new_logs = g.new_logs ++ rows;
      audit_logs = ap (λ ls. ls ++ rows) g.audit_logs ∙ append_assoc db.audit_logs g.new_logs rows;
      transactions = g.transactions;
    }

module _ {ℓ} {A : Type ℓ} (handler : Action A) where
  get_db-IsContinued :
      (db : Db) (s : Session)
      → IsOpened db s
      → KeepsCommitted handler
      → ((a : A) (s₁ : Session) → handler s ≡ (ok a, s₁) → IsContinued s.db s₁.db)
      → IsContinued db (after handler s)
  get_db-IsContinued db s opened keeps k = elim (Result-cases (get_db handler s).0) [
    | inl (a, p) ↦
        (let (s₁, q, fired, done) = get_db-ok handler s (ap (λ r. (r, (get_db handler s).1)) p) in
          let c : IsContinued db s₁.db = rw (sym opened.sees) (k a s₁ q) in
          subst (λ (w : Session). IsContinued db w.committed) (sym done)
            (record {
              grows = published-Grows db s₁ c.grows;
              ledger = λ inv. published-IsLedger s₁ (c.ledger inv);
            }))
    | inr (e, p) ↦
        (let back = get_db-err handler s (ap (λ r. (r, (get_db handler s).1)) p) keeps in
          subst (λ d. IsContinued db d) (sym (back.0 ∙ opened.committed))
            (record { grows = Grows-refl db; ledger = λ inv. inv }))
  ]

module _ {ℓ} {A : Type ℓ} (handler : Action A) (kept : KeepsLedger handler) where
  creation-IsContinued : (db : Db) (s : Session) → IsOpened db s → IsContinued db (after handler s)
  creation-IsContinued db s opened =
      get_db-IsContinued handler db s opened kept.committed (λ a s₁ p.
        let es = ap (λ r. r.1.db.entries) (sym p) ∙ kept.entries s in
        let ts = ap (λ r. r.1.db.transactions) (sym p) ∙ kept.transactions s in
        let ls = ap (λ r. r.1.db.audit_logs) (sym p) ∙ kept.audit_logs s in
        record {
          grows = same_tables-Grows s.db s₁.db es ts ls;
          ledger = same_tables-IsLedger s.db s₁.db es ts;
        })

create_transaction-IsContinued :
    (payload : TransactionCreate) (user_id : Uuid) (s : Session) (loaded : Loaded) (s' : Session)
    → create_transaction payload user_id s ≡ (ok loaded, s')
    → IsContinued s.db s'.db
create_transaction-IsContinued payload user_id s loaded s' p =
    let c = create_transaction-ok payload user_id s p in
    record {
      grows =
          rw (c.logged, c.saved.after)
            (record {
              new_entries = _;
              entries = refl;
              new_logs = [];
              audit_logs = sym (append-nil s.db.audit_logs);
              transactions = AreKept-refl s.db.transactions _;
            });
      ledger = create_transaction-IsLedger payload user_id s p;
    }

void_transaction-IsContinued :
    (id user_id : Uuid) (s : Session) (o : Option (Loaded × Loaded)) (s' : Session)
    → void_transaction id user_id s ≡ (ok o, s')
    → IsContinued s.db s'.db
void_transaction-IsContinued id user_id s none s' p =
    rw ((void_transaction-missing id user_id s p).1)
      (record { grows = Grows-refl s.db; ledger = λ inv. inv })
void_transaction-IsContinued id user_id s (some (original, reversal)) s' p =
    let v = void_transaction-ok id user_id s p in
    record {
      grows =
          rw (v.logged, v.saved.after)
            (record {
              new_entries = _;
              entries = refl;
              new_logs = [];
              audit_logs = sym (append-nil s.db.audit_logs);
              transactions = AreKept-void_row id s.db.transactions _;
            });
      ledger = void_transaction-IsLedger id user_id s p;
    }

Step-IsContinued : {db db' : Db} → Step db db' → IsContinued db db'
Step-IsContinued {db} (Step.post payload user_id s opened) =
    get_db-IsContinued (create_transaction payload user_id) db s opened
      (create_transaction-KeepsCommitted payload user_id)
      (create_transaction-IsContinued payload user_id s)
Step-IsContinued {db} (Step.void id user_id s opened) =
    get_db-IsContinued (void_transaction id user_id) db s opened
      (void_transaction-KeepsCommitted id user_id) (void_transaction-IsContinued id user_id s)
Step-IsContinued {db} (Step.add_account payload user_id s opened) =
    creation-IsContinued (create_account payload user_id)
      (create_account-KeepsLedger payload user_id) db s opened
Step-IsContinued {db} (Step.add_currency payload user_id s opened) =
    creation-IsContinued (create_currency payload user_id)
      (create_currency-KeepsLedger payload user_id) db s opened
Step-IsContinued {db} (Step.add_rate payload s opened) =
    creation-IsContinued (create_exchange_rate payload) (create_exchange_rate-KeepsLedger payload)
      db s opened
Step-IsContinued {db} (Step.add_user h email password role s opened) =
    creation-IsContinued (create_user h email password role)
      (create_user-KeepsLedger h email password role) db s opened

-- After any number of requests, each answered or refused, that start at tables which keep the
-- invariant of the ledger, the committed tables keep it, the entries and the audit logs of the start
-- are all still there, before the new ones, and of its headers nothing has changed but that some
-- that were POSTED are VOIDED.
pub Reaches-Grows : {db db' : Db} → Reaches db db' → IsLedger db → IsLedger db' × Grows db db'
Reaches-Grows {db} Reaches.here inv = (inv, Grows-refl db)
Reaches-Grows {db} {db'} (Reaches.next {db₁} before last) inv =
    let (inv₁, g) = Reaches-Grows before inv in
    let c = Step-IsContinued last in (c.ledger inv₁, Grows-trans db db₁ db' g c.grows)
