-- ===== src/Tests/Voids.antt =====
-- Two sessions that void the sale of `Runs`, which both find it before either updates it.
use payment_ledger_api.Common.{ℕ, ◌+◌, ◌≤◌, ◌≡◌, refl, some, [], ◌∷◌, arith}
use payment_ledger_api.Model.{Uuid}
use payment_ledger_api.Errors.{ok}
use payment_ledger_api.Db.{Db}
use payment_ledger_api.Session.{Session}
use payment_ledger_api.Repositories.Transactions.{find_by_id_with_entries}
use payment_ledger_api.Services.Transactions.{create_transaction, void_found}
use payment_ledger_api.Ledger.{IsLedger}
use payment_ledger_api.Ledger.Committed.{get_db-create_transaction}
use payment_ledger_api.Ledger.History.{IsOpened, Step, after}
use payment_ledger_api.Ledger.Interleaved.{Waiting, Event, Events, Events-reversals}
use payment_ledger_api.Ledger.Once.{reversals, IsReversedOnce}
use payment_ledger_api.Tests.Demo.{demo_db, session_on, sale_eur}
use payment_ledger_api.Tests.Runs.{start, sold, demo_db-IsLedger}
use payment_ledger_api.Tests.Requests.{request_runs}

opened : (db : Db) (uuid4 : ℕ → Uuid) → IsOpened db (record (session_on db) { uuid4 = uuid4 })
opened db uuid4 = record { sees = refl; committed = refl; added = refl; deferred = refl }

abbrev sold_db : Db
sold_db = after (create_transaction sale_eur 7) start

sale_is_found : find_by_id_with_entries 1000 sold_db ≡ ok (some sold)
sale_is_found = (get_db-create_transaction sale_eur 7 start request_runs demo_db-IsLedger refl).1

abbrev first : Session
first = record (session_on sold_db) { uuid4 = λ n. n + 2000 }

abbrev once_voided : Db
once_voided = after (void_found sold 1000 7) first

abbrev second : Session
second = record (session_on once_voided) { uuid4 = λ n. n + 3000 }

abbrev both_found : Waiting
both_found = (1000, sold) ∷ (1000, sold) ∷ []

both_void : Events demo_db [] (after (void_found sold 1000 8) second) []
both_void =
    Events.next
      (Events.next
        (Events.next
          (Events.next
            (Events.next Events.here
              (Event.request sold_db (Step.post sale_eur 7 start (opened demo_db (λ n. n + 1000)))))
            (Event.find 1000 sold sale_is_found))
          (Event.find 1000 sold sale_is_found))
        (Event.settle [] ((1000, sold) ∷ []) 1000 sold 7 first refl
          (opened sold_db (λ n. n + 2000))))
      (Event.settle [] [] 1000 sold 8 second refl (opened once_voided (λ n. n + 3000)))

nothing_reversed : IsReversedOnce demo_db.transactions
nothing_reversed = record { at = λ id. omega arith }

Events-reversals_example :
    IsLedger (after (void_found sold 1000 8) second)
    × ((id : Uuid) → reversals id (after (void_found sold 1000 8) second).transactions ≤ 1)
Events-reversals_example =
    Events-reversals demo_db (after (void_found sold 1000 8) second) [] both_void demo_db-IsLedger
      nothing_reversed
