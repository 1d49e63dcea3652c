-- ===== src/Ledger/Triggers.antt =====
-- The deferred trigger of alembic/versions/20260623_1400_dba49c02eafb_*.py: what it guards on its
-- own.
use payment_ledger_api.Common.{◌≡◌, List, [], ◌∷◌, All, arith, inl, inr, nat_eq}
use payment_ledger_api.Model.{Uuid, Direction, Entry}
use payment_ledger_api.Errors.{ok, Result-cases}
use payment_ledger_api.Db.{Db, side_sum, check_entries_balance}
use payment_ledger_api.Session.{Session, Action, fire_triggers, get_db}
use payment_ledger_api.Session.Atomic.{get_db-ok, published}

-- The transaction of an entry balances.
abbrev pub IsBalancedIn : List Entry → Entry → Type 0
IsBalancedIn es e =
    side_sum Direction.debit e.transaction_id es ≡ side_sum Direction.credit e.transaction_id es

check_entries_balance-ok :
    (id : Uuid) (db : Db)
    → check_entries_balance id db ≡ ok tt
    → side_sum Direction.debit id db.entries ≡ side_sum Direction.credit id db.entries
unfolding check_entries_balance
check_entries_balance-ok id db h = ground arith

fire_triggers-ok :
    (es : List Entry) (db : Db) → fire_triggers es db ≡ ok tt → All (IsBalancedIn db.entries) es
unfolding fire_triggers
fire_triggers-ok [] db h = tt
fire_triggers-ok (e ∷ es) db h = elim (Result-cases (check_entries_balance e.transaction_id db)) [
  | inl (u, p) ↦
      (check_entries_balance-ok e.transaction_id db p, fire_triggers-ok es db (ground arith))
  | inr (x, p) ↦ ground arith
]

-- Whatever a request's handler does, the rows of `entries` that it has flushed when it returns
-- belong, once committed, to transactions whose debits equal their credits.
pub get_db-guards {ℓ} :
    {A : Type ℓ} (handler : Action A) (s : Session) {a : A} {s' : Session}
    → get_db handler s ≡ (ok a, s')
    → (s₁ : Session) × (handler s ≡ (ok a, s₁))
      × All (IsBalancedIn s'.committed.entries) s₁.deferred
get_db-guards handler s h =
    let (s₁, p, fired, after) = get_db-ok handler s h in
    (s₁, p, rw after (fire_triggers-ok s₁.deferred (published s₁).db fired))
