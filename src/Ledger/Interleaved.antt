-- ===== src/Ledger/Interleaved.antt =====
-- Concurrent voids. `void_transaction` reads the transaction and then updates its status: between the
-- two, other sessions may commit. From the UPDATE on, the row's lock keeps every other void of the
-- transaction waiting until the COMMIT, so the rest of a void is one event.
use payment_ledger_api.Common.{◌≤◌, ◌≡◌, some, List, [], ◌∷◌, ◌++◌, All, nat_eq}
use payment_ledger_api.Model.{Uuid}
use payment_ledger_api.Errors.{ok}
use payment_ledger_api.Db.{Db}
use payment_ledger_api.Session.{Session}
use payment_ledger_api.Repositories.Transactions.{Loaded, find_by_id_with_entries}
use payment_ledger_api.Services.Transactions.{void_found}
use payment_ledger_api.Ledger.{IsLedger}
use payment_ledger_api.Ledger.Committed.{void_found-KeepsCommitted}
use payment_ledger_api.Ledger.History.{IsOpened, Step, after}
use payment_ledger_api.Ledger.Once.{IsReversedOnce, IsReversedOnce-reversals, reversals}
use payment_ledger_api.Ledger.Sound.{
  IsSound, IsFound, find-IsFound, after-IsSound, void_found-IsSound, Step-IsSound,
}

-- What a session has found that did not run its UPDATE yet.
abbrev pub Waiting : Type 0
Waiting = List (Uuid × Loaded)

pub data Event (db : Db) (waiting : Waiting) : Db → Waiting → Type 0 where
  find :
      (id : Uuid) (found : Loaded)
      → find_by_id_with_entries id db ≡ ok (some found)
      → Event db waiting db ((id, found) ∷ waiting)
  -- the rest of the void, with what was found then, on what is committed now
  settle :
      (before rest : Waiting) (id : Uuid) (found : Loaded) (user_id : Uuid) (s : Session)
      → waiting ≡ before ++ (id, found) ∷ rest
      → IsOpened db s
      → Event db waiting (after (void_found found id user_id) s) (before ++ rest)
  -- a request that runs by itself
  request : (db' : Db) → Step db db' → Event db waiting db' waiting

pub data Events (db : Db) (waiting : Waiting) : Db → Waiting → Type 0 where
  here : Events db waiting db waiting
  next :
      {db₁ db₂ : Db} {waiting₁ waiting₂ : Waiting}
      → Events db waiting db₁ waiting₁
      → Event db₁ waiting₁ db₂ waiting₂
      → Events db waiting db₂ waiting₂

All-remove :
    (before rest : Waiting) (p : Uuid × Loaded)
    → All IsFound (before ++ p ∷ rest)
    → IsFound p × All IsFound (before ++ rest)
All-remove [] rest p h = h
All-remove (q ∷ before) rest p h =
    let more = All-remove before rest p h.1 in (more.0, (h.0, more.1))

settle-IsSound :
    (db : Db) (id : Uuid) (found : Loaded) (user_id : Uuid) (s : Session)
    → IsOpened db s
    → IsFound (id, found)
    → IsSound db
    → IsSound (after (void_found found id user_id) s)
settle-IsSound db id found user_id s opened f sound =
    after-IsSound (void_found found id user_id) db s opened
      (void_found-KeepsCommitted found id user_id)
      (λ pair s₁ p. void_found-IsSound found id user_id s pair s₁ p f (rw opened.sees sound)) sound

Event-IsSound :
    (db : Db) (waiting : Waiting) (db' : Db) (waiting' : Waiting)
    → Event db waiting db' waiting'
    → IsSound db × All IsFound waiting
    → IsSound db' × All IsFound waiting'
Event-IsSound db waiting _ _ (Event.find id found h) (sound, all) =
    (sound, (find-IsFound id db found sound.ledger h, all))
Event-IsSound db waiting _ _ (Event.settle before rest id found user_id s e opened) (sound, all) =
    let removed = All-remove before rest (id, found) (rw e at all) in
    (settle-IsSound db id found user_id s opened removed.0 sound, removed.1)
Event-IsSound db waiting _ _ (Event.request db' step) (sound, all) = (Step-IsSound step sound, all)

Events-IsSound :
    (db : Db) (waiting : Waiting) (db' : Db) (waiting' : Waiting)
    → Events db waiting db' waiting'
    → IsSound db × All IsFound waiting
    → IsSound db' × All IsFound waiting'
Events-IsSound db waiting _ _ Events.here h = h
Events-IsSound db waiting db' waiting' (Events.next {db₁} {db₂} {waiting₁} {waiting₂} before last)
      h =
    Event-IsSound db₁ waiting₁ db' waiting' last (Events-IsSound db waiting db₁ waiting₁ before h)

-- However the voids of any number of sessions interleave with one another and with other requests,
-- starting from a ledger that keeps its invariant and in which what was reversed was reversed once and is VOIDED: the
-- invariant is kept, and no transaction has more than one reversal.
pub Events-reversals :
    (db db' : Db) (waiting' : Waiting)
    → Events db [] db' waiting'
    → IsLedger db
    → IsReversedOnce db.transactions
    → IsLedger db' × ((id : Uuid) → reversals id db'.transactions ≤ 1)
Events-reversals db db' waiting' events ledger once =
    let (sound, all) =
      Events-IsSound db [] db' waiting' events (record { ledger = ledger; once = once }, tt) in
    (sound.ledger, λ id. IsReversedOnce-reversals db'.transactions id sound.once)
