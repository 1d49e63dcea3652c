-- ===== src/Ledger/Unchanged.antt =====
-- A request that only reads, in a session of its own.
use mathlib.Core.List.{append-nil}
use payment_ledger_api.Common.{◌≡◌, ap, sym, ◌∙◌, [], ◌++◌, inl, inr}
use payment_ledger_api.Errors.{Result-cases}
use payment_ledger_api.Db.{Db}
use payment_ledger_api.Session.{Session, Action, get_db}
use payment_ledger_api.Session.Atomic.{get_db-ok, get_db-err, published, audit_rows}
use payment_ledger_api.Ledger.History.{IsOpened, after}
use payment_ledger_api.Session.Reads.{ReadsOnly}

published-nothing : (s : Session) → s.added ≡ [] → (published s).committed ≡ s.db
published-nothing s h =
    ap
      (λ news. record s.db {
        audit_logs = s.db.audit_logs ++ audit_rows s.uuid4 s.draws s.started news;
      })
      h
    ∙ ap (λ logs. record s.db { audit_logs = logs }) (append-nil s.db.audit_logs)

-- A handler that reads only leaves the committed tables alone.
pub after-ReadsOnly {ℓ} :
    {A : Type ℓ} (handler : Action A) (db : Db) (s : Session)
    → ReadsOnly handler
    → IsOpened db s
    → after handler s ≡ db
after-ReadsOnly handler db s reads opened = elim (Result-cases (get_db handler s).0) [
  | inl (a, p) ↦
      (let (s₁, q, fired, done) = get_db-ok handler s (ap (λ r. (r, (get_db handler s).1)) p) in
        let same : s₁ ≡ s = ap (λ r. r.1) (sym q) ∙ reads.at s in
        ap (λ (w : Session). w.committed) done
        ∙ ap (λ w. (published w).committed) same
        ∙ published-nothing s opened.added
        ∙ opened.sees)
  | inr (e, p) ↦
      ((get_db-err handler s (ap (λ r. (r, (get_db handler s).1)) p)
          (record { at = λ w. ap (λ (v : Session). v.committed) (reads.at w) })).0
        ∙ opened.committed)
]
