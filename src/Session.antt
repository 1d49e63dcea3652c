-- ===== src/Session.antt =====
-- A request's database session, and a call that reads and writes through it and may raise. What
-- was written before a raise stays in the session, and `get_db` of app/db/session.py rolls it back.
pub mod Laws
pub mod Reads
pub mod Url
pub mod Atomic
use payment_ledger_api.Common.{ℕ, ◌+◌, Option, List, [], ◌∷◌, String}
use payment_ledger_api.Model.{Uuid, Timestamp, Entry, Snapshot, AuditLog}
use payment_ledger_api.Errors.{Error, Result, ok, err}
use payment_ledger_api.Db.{Db, insert_audit_log, check_entries_balance}

-- An `AuditLog` object that was added to the session and is not flushed yet.
pub record NewAuditLog : Type 0 where
  pub user_id : Uuid
  pub entity_type : String
  pub entity_id : Uuid
  pub action : String
  pub before_value : Option Snapshot
  pub after_value : Option Snapshot

-- `db` is what the session sees, `committed` what other sessions see. `deferred` holds the rows of
-- `entries` whose deferred trigger has not fired. `uuid4` gives the values of that function by the
-- number of its calls, `now` is `datetime.now(UTC)` and `started` the database's `now()`.
pub record Session : Type 0 where
  pub db : Db
  pub committed : Db
  pub added : List NewAuditLog
  pub deferred : List Entry
  pub uuid4 : ℕ → Uuid
  pub draws : ℕ
  pub now : Timestamp
  pub started : Timestamp

abbrev pub Action {ℓ} : Type ℓ → Type ℓ
Action A = Session → Result A × Session

module _ {ℓ} {A : Type ℓ} where
  abbrev pub pure : A → Action A
  pure a s = (ok a, s)

  abbrev pub raise : Error → Action A
  raise e s = (err e, s)

  abbrev pub lift : Result A → Action A
  lift r s = (r, s)

  -- A query.
  abbrev pub query : (Db → A) → Action A
  query f s = (ok (f s.db), s)

  abbrev pub get : (Session → A) → Action A
  get f s = (ok (f s), s)

infixl 5 ◌>>=◌ ◌>>◌
abbrev pub ◌>>=◌ {ℓ κ} : {A : Type ℓ} {B : Type κ} → Action A → (A → Action B) → Action B
◌>>=◌ m f s = let (r, s') = m s in elim r [ ok a ↦ f a s' | err e ↦ (err e, s') ]

abbrev pub ◌>>◌ {ℓ} : {B : Type ℓ} → Action (Unit {0}) → Action B → Action B
m >> n = m >>= λ _. n

-- A statement that writes.
abbrev pub execute : (Db → Result Db) → Action (Unit {0})
execute f s = elim (f s.db) [ ok db ↦ (ok tt, record s { db = db }) | err e ↦ (err e, s) ]

unfoldable pub draw : Action Uuid
draw s = (ok (s.uuid4 s.draws), record s { draws = s.draws + 1 })

abbrev pub audit_row : Uuid → Timestamp → NewAuditLog → AuditLog
audit_row id at new = record {
  id = id;
  user_id = new.user_id;
  entity_type = new.entity_type;
  entity_id = new.entity_id;
  action = new.action;
  before_value = new.before_value;
  after_value = new.after_value;
  created_at = at;
}

unfoldable pub flush_added : List NewAuditLog → Action (Unit {0})
flush_added [] = pure tt
flush_added (new ∷ rest) = do
  id ← draw
  at ← get (λ s. s.started)
  execute (insert_audit_log (audit_row id at new))
  flush_added rest

unfoldable pub fire_triggers : List Entry → Db → Result (Unit {0})
fire_triggers [] db = ok tt
fire_triggers (e ∷ es) db = elim (check_entries_balance e.transaction_id db) [
  | ok _ ↦ fire_triggers es db
  | err x ↦ err x
]

-- What COMMIT publishes once no trigger has raised.
abbrev pub publish : Action (Unit {0})
publish s = (ok tt, record s { committed = s.db; deferred = [] })

-- `session.commit()`
unfoldable pub commit : Action (Unit {0})
unfolding flush_added fire_triggers
commit = do
  added ← get (λ s. s.added)
  flush_added added
  (λ s. (ok tt, record s { added = [] }))
  deferred ← get (λ s. s.deferred)
  db ← get (λ s. s.db)
  lift (fire_triggers deferred db)
  publish

-- `session.rollback()`
unfoldable pub rollback : Session → Session
rollback s = record s { db = s.committed; added = []; deferred = [] }

module _ {ℓ} {A : Type ℓ} where
  abbrev pub or_rollback : Result A × Session → Result A × Session
  or_rollback (ok a, s) = (ok a, s)
  or_rollback (err e, s) = (err e, rollback s)

  -- `get_db` around a request's handler.
  unfoldable pub get_db : Action A → Action A
  unfolding commit rollback
  get_db handler s = or_rollback ((handler >>= λ a. commit >>= λ _. pure a) s)
