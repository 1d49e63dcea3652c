-- ===== src/Lib.antt =====
-- payment-ledger-api: a double-entry ledger behind a REST API.
--
-- A request is parsed (app/schemas), handled by a service (app/services) that reads and writes
-- through repositories (app/repositories) over one database session, and committed or rolled back
-- by `get_db` (app/db/session.py). A transaction is posted once, with entries whose debits equal
-- its credits, and can be voided once, by a reversal with the opposite entries. A deferred trigger
-- of the database checks the balance again at COMMIT.
--
-- The files:
--   Common       lists, options, order of rows, integers and rulesets that the rest shares
--   Money        `_convert_amount_usd` and the part of Python's `decimal` that it uses
--   Model        app/models: a record a table, an enum a data type
--   Errors       app/core/exceptions.py, and the errors of the libraries that pass through
--   Schemas      app/schemas/transaction.py: the request bodies and their validators, and the
--                response bodies (Read)
--   Db           the tables with the constraints of app/models and alembic/versions, and the
--                trigger function `check_entries_balance`
--   Session      a session and `get_db`: flush, COMMIT with its triggers, ROLLBACK; an `Action`
--                is a call that reads and writes a session and returns or raises; `_asyncpg_url`
--                of app/db/session.py is in Url
--   Repositories app/repositories, a module a file; the paged lists are in Ledger, the order of
--                the ledger in its Order and a reader of its pages in its Pages
--   Services     app/services/transaction_service.py in Transactions, with the checks in its
--                Rules; the services that create accounts, currencies, rates and users in Admin
--   Idempotency  app/dependencies/idempotency.py around a handler, as `post_transaction` of
--                app/api/v1/routes/transactions.py uses it
--   Routes       app/api/v1/routes: the two handlers of transactions.py that write, what their
--                early commit does (Commits), each route behind its role (Endpoints), and what
--                callers who are not admins can do (Roles)
--   BalanceCache `get_account_balance` of app/api/v1/routes/accounts.py and
--                `_invalidate_balance_cache` of app/api/v1/routes/transactions.py: the keys in
--                Keys, the readers in Reads, the writers in Writes, both over time in Serves, and
--                a reader that a writer overtakes in Race
--   Seed         scripts/seed_demo_user.py: the seeding, what a run leaves (Once), and the parsing
--                of the database URL in Url
--   Auth         app/core/deps.py, the tokens of app/core/security.py, and the login
--   Ledger       the theorems on the tables: the invariant, balances, reversals, the life of a
--                transaction, conversion, the trigger and when it refuses (Triggers, Overflow),
--                what a request commits, what must return
--                (Returns), the tables over any number of requests (Grows, History), and the
--                voids of sessions that interleave (Once, Sound, Interleaved)
--   Tests        runs on a small database, and the theorems at them
--
-- Conventions. A UUID is a number, a date a day number and a timestamp a number of microseconds,
-- since the program only compares them. `uuid4`, the clock and the database's `now()` are fields of
-- the session; a `uuid4` that repeats is refused by the primary key, as in the database. Amounts
-- are natural numbers, since no validator lets another one pass; BIGINT's bound is a check of the
-- INSERT, and a Decimal keeps the 28 digits of the default context. The fuel of `excess`, which
-- counts the digits to drop, is the coefficient itself: each step drops a digit, so there are
-- never so many. A session sees one state of the tables, but for Ledger/Interleaved: there a void
-- reads the transaction from what is committed then, and updates what is committed later, as at
-- PostgreSQL's level READ COMMITTED; the row that it updates is locked until its COMMIT.
--
-- Rows without an ORDER BY, as the entries that are loaded with a transaction, and rows that tie
-- in one come in the order of their INSERTs, which PostgreSQL does not promise; the order of the
-- ledger's pages has no ties. PyJWT keeps the expiry of a token in whole seconds.
--
-- The theorems of Ledger run a service in `get_db`, which commits once at the end; the routes,
-- which commit right after the service and call Redis then, are in Routes, with what becomes of
-- these calls as an argument. The two routes of transactions that write raise what Redis raises;
-- `_invalidate_balance_cache` in BalanceCache fails by lost connections and timeouts only, which
-- it catches.
--
-- Not modelled: the text of error messages (their values are kept), the wire format, the response
-- bodies of the routes other than those of transactions and balances, which are copies of rows,
-- logging, telemetry, configuration and the load test. PostgreSQL, SQLAlchemy, Redis and FastAPI are
-- not in the repository; the model takes from them that a failed statement changes nothing, that
-- COMMIT is atomic, and that a deferred trigger fires before it.
pub mod Common
pub mod Money
pub mod Model
pub mod Errors
pub mod Schemas
pub mod Db
pub mod Session
pub mod Repositories
pub mod Services
pub mod Ledger
pub mod Idempotency
pub mod Auth
pub mod Routes
pub mod BalanceCache
pub mod Seed
mod Tests
