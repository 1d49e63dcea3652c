-- ===== src/Ledger/Overflow.antt =====
-- The one case in which the deferred trigger refuses what `create_transaction` has written.
use payment_ledger_api.Common.{
  ℕ, ◌+◌, ◌≡◌, refl, ap, sym, ◌∙◌, false, List, [], ◌∷◌, ◌++◌, any, All, arith, inl, inr, ltb, ◌==◌,
  nat_eq, nat_beq_refl, Bool-cases, if◌then◌else◌,
}
use payment_ledger_api.Money.{bigint_limit}
use payment_ledger_api.Model.{Uuid, Direction, Entry, Transaction}
use payment_ledger_api.Errors.{ok, err, data_error}
use payment_ledger_api.Schemas.{TransactionCreate}
use payment_ledger_api.Db.{Db, side_sum, check_entries_balance}
use payment_ledger_api.Session.{Session, fire_triggers}
use payment_ledger_api.Repositories.Transactions.{NewEntry, Loaded}
use payment_ledger_api.Repositories.Transactions.Save.{rows}
use payment_ledger_api.Services.Transactions.{create_transaction}
use payment_ledger_api.Services.Transactions.Rules.{amount_sum}
use payment_ledger_api.Services.Transactions.Create.{create_transaction-ok}
use payment_ledger_api.Ledger.{IsLedger, IsLinked}
use payment_ledger_api.Ledger.Effect.{unused_ne'}
use payment_ledger_api.Ledger.Sums.{new_sum, side_sum-append, side_sum-rows}
use payment_ledger_api.Ledger.Requests.{new_sum-new_entries, check_payload-balanced}

side_sum-unused :
    (side : Direction) (id : Uuid) (ts : List Transaction) (es : List Entry)
    → any (λ r. r.id == id) ts ≡ false
    → All (IsLinked ts) es
    → side_sum side id es ≡ 0
side_sum-unused side id ts [] new h = refl
side_sum-unused side id ts (e ∷ es) new h =
    rw (unused_ne' id ts e new h.0) (side_sum-unused side id ts es new h.1)

-- The new rows are all there is of their transaction.
side_sum-new :
    (side : Direction) (id : Uuid) (ts : List Transaction) (es : List Entry) (uuid4 : ℕ → Uuid)
    (n : ℕ) (news : List NewEntry)
    → any (λ r. r.id == id) ts ≡ false
    → All (IsLinked ts) es
    → side_sum side id (es ++ rows uuid4 n id news) ≡ new_sum side news
side_sum-new side id ts es uuid4 n news new h = ground (
  arith,
  side_sum-append side id es (rows uuid4 n id news),
  side_sum-unused side id ts es new h,
  side_sum-rows side id id uuid4 n news,
  nat_beq_refl id,
)

-- A sum that both sides have is checked against BIGINT alone.
check_entries_balance-even :
    (id : Uuid) (db : Db) (sum : ℕ)
    → side_sum Direction.debit id db.entries ≡ sum
    → side_sum Direction.credit id db.entries ≡ sum
    → check_entries_balance id db ≡ (if ltb sum bigint_limit then ok tt else err data_error)
unfolding check_entries_balance
check_entries_balance-even id db sum p q = rw (p, q) (ground (arith, nat_beq_refl sum))

fire_triggers-pass :
    (uuid4 : ℕ → Uuid) (n : ℕ) (id : Uuid) (news : List NewEntry) (db : Db)
    → check_entries_balance id db ≡ ok tt
    → fire_triggers (rows uuid4 n id news) db ≡ ok tt
unfolding fire_triggers
fire_triggers-pass uuid4 n id [] db h = refl
fire_triggers-pass uuid4 n id (new ∷ news) db h =
    ap (λ r. elim r [ ok _ ↦ fire_triggers (rows uuid4 (n + 1) id news) db | err x ↦ err x ]) h
    ∙ fire_triggers-pass uuid4 (n + 1) id news db h

-- The trigger of the rows of one transaction, with a sum that both sides have.
fire_triggers-rows :
    (uuid4 : ℕ → Uuid) (n : ℕ) (id : Uuid) (news : List NewEntry) (db : Db)
    → check_entries_balance id db
      ≡ (if ltb (new_sum Direction.debit news) bigint_limit then ok tt else err data_error)
    → fire_triggers (rows uuid4 n id news) db
      ≡ (if ltb (new_sum Direction.debit news) bigint_limit then ok tt else err data_error)
unfolding fire_triggers
fire_triggers-rows uuid4 n id [] db h = refl
fire_triggers-rows uuid4 n id (new ∷ news) db h =
    elim (Bool-cases (ltb (new_sum Direction.debit (new ∷ news)) bigint_limit)) [
      | inl fits ↦
          (let passes : check_entries_balance id db ≡ ok tt =
              h ∙ ap (λ b. if b then ok tt else err data_error) fits in
            fire_triggers-pass uuid4 n id (new ∷ news) db passes
            ∙ sym (ap (λ b. if b then ok tt else err data_error) fits))
      | inr over ↦
          (let raises : check_entries_balance id db ≡ err data_error =
              h ∙ ap (λ b. if b then ok tt else err data_error) over in
            ap
              (λ r. elim r [ ok _ ↦ fire_triggers (rows uuid4 (n + 1) id news) db | err x ↦ err x ])
              raises
            ∙ sym (ap (λ b. if b then ok tt else err data_error) over))
    ]

-- In a ledger that keeps the invariant, in a session without deferred rows: the trigger of the rows
-- that a `create_transaction` which returned has left for COMMIT passes if the debits of the request,
-- which equal its credits, add up to a sum that BIGINT holds, and raises DataError if they do not.
pub create_transaction-fire_triggers :
    (payload : TransactionCreate) (user_id : Uuid) (s : Session) {loaded : Loaded} {s' : Session}
    → create_transaction payload user_id s ≡ (ok loaded, s')
    → IsLedger s.db
    → s.deferred ≡ []
    → fire_triggers s'.deferred s'.db ≡ (
        if ltb (amount_sum Direction.debit payload.entries) bigint_limit
        then ok tt
        else err data_error)
create_transaction-fire_triggers payload user_id s h inv clean =
    let c = create_transaction-ok payload user_id s h in
    let id = s.uuid4 s.draws in
    let new_rows = rows s.uuid4 (s.draws + 1) id c.news in
    let debits = new_sum-new_entries Direction.debit payload.entries c.converted c.zipped in
    let credits = new_sum-new_entries Direction.credit payload.entries c.converted c.zipped in
    let even = check_payload-balanced payload s.db c.checked in
    let total = λ (side : Direction).
      side_sum-new side id s.db.transactions s.db.entries s.uuid4 (s.draws + 1) c.news
        c.saved.unused inv.linked in
    rw (c.logged, c.saved.after, clean, sym debits)
      (fire_triggers-rows s.uuid4 (s.draws + 1) id c.news _ (
        check_entries_balance-even id _ (new_sum Direction.debit c.news) (total Direction.debit)
          (total Direction.credit ∙ credits ∙ sym even ∙ sym debits)))
