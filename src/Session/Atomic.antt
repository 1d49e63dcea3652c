-- ===== src/Session/Atomic.antt =====
-- `get_db`: a request commits as a whole, or leaves nothing behind.
use mathlib.Core.List.{append-nil, append_assoc}
use payment_ledger_api.Common.{
  ℕ, ◌+◌, ◌≡◌, refl, ap, sym, ◌∙◌, List, [], ◌∷◌, ◌++◌, length, arith, inl, inr, nat_eq,
}
use payment_ledger_api.Model.{Uuid, Timestamp, AuditLog}
use payment_ledger_api.Errors.{Error, Result, ok, err, Result-cases}
use payment_ledger_api.Db.{insert_audit_log}
use payment_ledger_api.Session.{
  Session, NewAuditLog, Action, pure, get, lift, execute, draw, ◌>>=◌, audit_row, flush_added,
  fire_triggers, commit, rollback, or_rollback, get_db,
}
use native.Mathlib.Nat.{add-zero}
use payment_ledger_api.Session.Laws.{
  bind_ok, KeepsCommitted, KeepsCommitted-bind, KeepsCommitted-execute, KeepsCommitted-draw,
  KeepsCommitted-get, KeepsCommitted-pure,
}

-- The rows that a flush writes for the objects that were added.
abbrev pub audit_rows : (ℕ → Uuid) → ℕ → Timestamp → List NewAuditLog → List AuditLog
audit_rows uuid4 n at [] = []
audit_rows uuid4 n at (new ∷ rest) = audit_row (uuid4 n) at new ∷ audit_rows uuid4 (n + 1) at rest

-- The session after a flush.
abbrev pub with_logs : List AuditLog → ℕ → Session → Session
with_logs more n s = record s {
  db = record s.db { audit_logs = s.db.audit_logs ++ more };
  draws = n;
}

with_logs-nil : (s : Session) → with_logs [] (s.draws + 0) s ≡ s
with_logs-nil s = rw (append-nil, add-zero)

with_logs-with_logs :
    (ls bs : List AuditLog) (n m : ℕ) (s : Session)
    → with_logs bs m (with_logs ls n s) ≡ with_logs (ls ++ bs) m s
with_logs-with_logs ls bs n m s = simp append_assoc

flush_one-ok :
    (a : AuditLog) (s : Session) {u : Unit {0}} {s' : Session}
    → execute (insert_audit_log a) s ≡ (ok u, s')
    → s' ≡ with_logs (a ∷ []) s.draws s
unfolding insert_audit_log
flush_one-ok a s h = ground arith

pub flush_added-ok :
    (news : List NewAuditLog) (s : Session) {u : Unit {0}} {s' : Session}
    → flush_added news s ≡ (ok u, s')
    → s' ≡ with_logs (audit_rows s.uuid4 s.draws s.started news) (s.draws + length news) s
unfolding flush_added draw
flush_added-ok [] s h = ap (λ p. p.1) (sym h) ∙ sym (with_logs-nil s)
flush_added-ok (new ∷ rest) s h =
    let a = audit_row (s.uuid4 s.draws) s.started new in
    let s₀ = record s { draws = s.draws + 1 } in
    let (u, s₁, p, q) = bind_ok (execute (insert_audit_log a)) (λ _. flush_added rest) s₀ h in
    let first = flush_one-ok a s₀ p in
    let more = flush_added-ok rest (with_logs (a ∷ []) (s.draws + 1) s) (rw first at q) in
    let ls = audit_rows s.uuid4 (s.draws + 1) s.started rest in
    more
    ∙ with_logs-with_logs (a ∷ []) ls (s.draws + 1) (s.draws + 1 + length rest) s
    ∙ ap (λ n. with_logs (a ∷ ls) n s) (omega arith)

-- What a COMMIT leaves: the log rows are in, and all of it is published.
abbrev pub published : Session → Session
published s =
    let s₁ =
      with_logs (audit_rows s.uuid4 s.draws s.started s.added) (s.draws + length s.added) s in
    record s₁ { committed = s₁.db; added = []; deferred = [] }

abbrev fire_and_publish : Action (Unit {0})
fire_and_publish s =
    (◌>>=◌ (lift (fire_triggers s.deferred s.db))
        (λ _ w. (ok tt, record w { committed = w.db; deferred = [] })))
      (record s { added = [] })

fire_and_publish-ok :
    (s : Session) {u : Unit {0}} {s' : Session}
    → fire_and_publish s ≡ (ok u, s')
    → (fire_triggers s.deferred s.db ≡ ok tt)
      × (s' ≡ record s { committed = s.db; added = []; deferred = [] })
fire_and_publish-ok s h = elim (Result-cases (fire_triggers s.deferred s.db)) [
  | inl (w, p) ↦ (p, ground arith)
  | inr (x, p) ↦ ground arith
]

pub commit-ok :
    (s : Session) {u : Unit {0}} {s' : Session}
    → commit s ≡ (ok u, s')
    → (fire_triggers s.deferred (published s).db ≡ ok tt) × (s' ≡ published s)
unfolding commit
commit-ok s {u} {s'} h =
    let (v, s₁, p, q) = bind_ok (flush_added s.added) (λ _. fire_and_publish) s h in
    let first = flush_added-ok s.added s p in
    let news = audit_rows s.uuid4 s.draws s.started s.added in
    let done = fire_and_publish-ok (with_logs news (s.draws + length s.added) s) (rw first at q) in
    (done.0, done.1)

module _ {ℓ} {A : Type ℓ} where
  or_rollback-ok :
      (p : Result A × Session) {a : A} {s' : Session} → or_rollback p ≡ (ok a, s') → p ≡ (ok a, s')
  or_rollback-ok (ok a, s) h = h
  or_rollback-ok (err e, s) h = cc

  or_rollback-err :
      (p : Result A × Session) {e : Error} {s' : Session}
      → or_rollback p ≡ (err e, s')
      → (s₁ : Session) × (p ≡ (err e, s₁)) × (s' ≡ rollback s₁)
  or_rollback-err (ok a, s) h = cc
  or_rollback-err (err e, s) h = (s, cc, ap (λ q. q.1) (sym h))

  abbrev commit_with : A → Action A
  commit_with a = commit >>= λ _. pure a

  commit_with-ok :
      (a : A) (s : Session) {b : A} {s' : Session}
      → commit_with a s ≡ (ok b, s')
      → (b ≡ a) × (commit s ≡ (ok tt, s'))
  commit_with-ok a s h = let (u, s₁, p, q) = bind_ok commit (λ _. pure a) s h in (cc, cc)

  -- A handler that runs in `get_db` and returns has returned by itself, and was committed.
  pub get_db-ok :
      (handler : Action A) (s : Session) {a : A} {s' : Session}
      → get_db handler s ≡ (ok a, s')
      → (s₁ : Session) × (handler s ≡ (ok a, s₁))
        × (fire_triggers s₁.deferred (published s₁).db ≡ ok tt)
        × (s' ≡ published s₁)
  unfolding get_db
  get_db-ok handler s h =
      let (b, s₁, p, q) = bind_ok handler commit_with s (or_rollback-ok _ h) in
      let (same, r) = commit_with-ok b s₁ q in
      let done = commit-ok s₁ r in (s₁, rw same p, done.0, done.1)

module _ {ℓ κ} {A : Type ℓ} {B : Type κ} where
  -- A sequence that raises leaves what is committed alone, if its first part does, and its second
  -- whenever it raises.
  err_keeps :
      (p : Result B × Session) (f : B → Action A) {e : Error} {s' : Session}
      → ((b : B) → f b p.1 ≡ (err e, s') → s'.committed ≡ p.1.committed)
      → ◌>>=◌ (λ _. p) f p.1 ≡ (err e, s')
      → s'.committed ≡ p.1.committed
  err_keeps (ok b, s₁) f k h = k b h
  err_keeps (err x, s₁) f k h = ap (λ q. q.1.committed) (sym h)

flush_added-KeepsCommitted : (news : List NewAuditLog) → KeepsCommitted (flush_added news)
unfolding flush_added
flush_added-KeepsCommitted [] = KeepsCommitted-pure tt
flush_added-KeepsCommitted (new ∷ rest) =
    let write = λ (id : Uuid) (at : Timestamp).
      KeepsCommitted-bind (execute (insert_audit_log (audit_row id at new))) (λ _. flush_added rest)
        (KeepsCommitted-execute (insert_audit_log (audit_row id at new)))
        (λ _. flush_added-KeepsCommitted rest) in
    KeepsCommitted-bind draw _ KeepsCommitted-draw (λ id.
      KeepsCommitted-bind (get (λ s. s.started)) _ (KeepsCommitted-get (λ s. s.started)) (write id))

fire_and_publish-err :
    (s : Session) {e : Error} {s' : Session}
    → fire_and_publish s ≡ (err e, s')
    → s'.committed ≡ s.committed
fire_and_publish-err s h = ground arith

commit-err :
    (s : Session) {e : Error} {s' : Session} → commit s ≡ (err e, s') → s'.committed ≡ s.committed
unfolding commit
commit-err s h =
    err_keeps (flush_added s.added s) (λ _. fire_and_publish)
      (λ _ k. fire_and_publish-err (flush_added s.added s).1 k) h
    ∙ (flush_added-KeepsCommitted s.added).at s

commit_with-err {ℓ} :
    {A : Type ℓ} (a : A) (s : Session) {e : Error} {s' : Session}
    → commit_with a s ≡ (err e, s')
    → s'.committed ≡ s.committed
commit_with-err {A = A} a s {e} h = from (commit s) refl h
  where
    from :
        (p : Result (Unit {0}) × Session) {s' : Session}
        → commit s ≡ p
        → ◌≡◌ {A = Result A × Session} (◌>>=◌ (λ _. p) (λ _. pure a) s) (err e, s')
        → s'.committed ≡ s.committed
    from (ok u, s₁) k h = cc
    from (err x, s₁) k h = ap (λ q. q.1.committed) (sym h) ∙ commit-err s k

-- A request that raises, in its handler or at the COMMIT, leaves what is committed alone, and the
-- session without a trace of it.
pub get_db-err {ℓ} :
    {A : Type ℓ} (handler : Action A) (s : Session) {e : Error} {s' : Session}
    → get_db handler s ≡ (err e, s')
    → KeepsCommitted handler
    → (s'.committed ≡ s.committed) × (s'.db ≡ s.committed) × (s'.added ≡ []) × (s'.deferred ≡ [])
unfolding get_db rollback
get_db-err handler s {e} {s'} h keeps =
    let (s₁, p, q) = or_rollback-err _ h in
    let same : s₁.committed ≡ s.committed =
      err_keeps (handler s) commit_with (λ a. commit_with-err a (handler s).1) p ∙ keeps.at s in
    rw q (same, same, refl, refl)
