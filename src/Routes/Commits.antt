-- ===== src/Routes/Commits.antt =====
-- The early COMMIT of a route is the one that counts: nothing after it is taken back.
use mathlib.Core.Path.{subst}
use payment_ledger_api.Common.{ℕ, ◌≡◌, refl, ap, sym, ◌∙◌, Option, none, some, arith}
use payment_ledger_api.Model.{Uuid}
use payment_ledger_api.Errors.{Result, ok, err}
use payment_ledger_api.Schemas.{TransactionCreate}
use payment_ledger_api.Schemas.Read.{TransactionRead, VoidResponse, transaction_read, void_response}
use payment_ledger_api.Session.{
  Session, Action, pure, lift, commit, or_rollback, get_db, rollback, ◌>>=◌,
}
use payment_ledger_api.Session.Atomic.{commit-ok, get_db-ok, published}
use payment_ledger_api.Repositories.Transactions.{Loaded}
use payment_ledger_api.Services.Transactions.{create_transaction, void_transaction, found_or}
use payment_ledger_api.Routes.{
  run_post, post_transaction, void_transaction_endpoint, missing_transaction,
}

module _ {ℓ} {A : Type ℓ} where
  abbrev then_commit : Result A × Session → Result A × Session
  then_commit p = ((λ _. p) >>= λ a. commit >>= λ _. pure a) p.1

module _ {ℓ κ} {A : Type ℓ} {B : Type κ} (respond : A → Result B) where
  -- What a route does with the result of its service: COMMIT, and then what may raise.
  abbrev commit_then : Result A × Session → Result B × Session
  commit_then p = ((λ _. p) >>= λ a. commit >>= λ _. lift (respond a)) p.1

  abbrev pub answered_as : Result A → Result B
  answered_as (err e) = err e
  answered_as (ok a) = respond a

  responded :
      (r : Result B) (s : Session) → or_rollback (then_commit (r, published s)) ≡ (r, published s)
  unfolding commit rollback
  responded (err e) s = refl
  responded (ok b) s = refl

  -- After the COMMIT nothing is taken back.
  commit_then-published :
      (p : Result A × Session)
      → or_rollback (then_commit (commit_then p))
        ≡ (answered_as (or_rollback (then_commit p)).0, (or_rollback (then_commit p)).1)
  commit_then-published (err e, s) = refl
  commit_then-published (ok a, s) = settle (commit s) refl
    where
      settle :
          (q : Result (Unit {0}) × Session)
          → commit s ≡ q
          → or_rollback (then_commit (((λ _. q) >>= λ _. lift (respond a)) s)) ≡ (
            answered_as (or_rollback (((λ _. q) >>= λ _. pure a) s)).0,
            (or_rollback (((λ _. q) >>= λ _. pure a) s)).1,
          )
      settle (err e, s') k = refl
      settle (ok u, s') k =
          subst (λ w. or_rollback (then_commit (respond a, w)) ≡ (respond a, w))
            (sym (commit-ok s k).1) (responded (respond a) s)

-- What a post answers when its service has committed.
abbrev pub posted : (invalidated cached : Result (Unit {0})) → Loaded → Result (ℕ × TransactionRead)
posted (err e) cached t = err e
posted (ok u) (err e) t = err e
posted (ok u) (ok v) t = ok (201, transaction_read t)

run_post-posted :
    (invalidated cached : Result (Unit {0})) (payload : TransactionCreate) (user_id : Uuid)
    (s : Session)
    → run_post invalidated cached payload user_id s
      ≡ commit_then (posted invalidated cached) (create_transaction payload user_id s)
unfolding run_post
run_post-posted (err e) cached payload user_id s = refl
run_post-posted (ok u) (err e) payload user_id s = refl
run_post-posted (ok u) (ok v) payload user_id s = refl

-- A post that is no replay leaves the session and the committed tables as the service alone leaves
-- them in `get_db`, whether or not the calls to Redis that come after its COMMIT raise; and it is
-- answered by what the service raises, or else by what the invalidation of the balances raises, or
-- else by what the caching of the response raises, or else by 201 and the transaction.
pub post_transaction-get_db :
    (invalidated cached : Result (Unit {0})) (payload : TransactionCreate) (user_id : Uuid)
    (s : Session)
    → get_db (post_transaction none invalidated cached payload user_id) s ≡ (
      answered_as (posted invalidated cached) (get_db (create_transaction payload user_id) s).0,
      (get_db (create_transaction payload user_id) s).1,
    )
unfolding get_db post_transaction
post_transaction-get_db invalidated cached payload user_id s =
    ap (λ p. or_rollback (then_commit p)) (run_post-posted invalidated cached payload user_id s)
    ∙ commit_then-published (posted invalidated cached) (create_transaction payload user_id s)

-- The service, and 404 if it finds nothing.
abbrev pub voided_or_missing : Uuid → Uuid → Action (Loaded × Loaded)
voided_or_missing id user_id =
    void_transaction id user_id >>= λ result. lift (found_or missing_transaction result)

abbrev pub void_answer : (invalidated : Result (Unit {0})) → Loaded × Loaded → Result VoidResponse
void_answer (err e) p = err e
void_answer (ok u) p = ok (void_response p)

void_endpoint-answer :
    (invalidated : Result (Unit {0})) (p : Result (Option (Loaded × Loaded)) × Session)
    → ((λ _. p) >>= λ result. lift (found_or missing_transaction result) >>= λ pair.
          commit >>= λ _. lift invalidated >>= λ _. pure (void_response pair))
        p.1
      ≡ commit_then
          (void_answer invalidated)
          (((λ _. p) >>= λ result. lift (found_or missing_transaction result)) p.1)
void_endpoint-answer invalidated (err x, s) = refl
void_endpoint-answer invalidated (ok none, s) = refl
void_endpoint-answer (err e) (ok (some q), s) = refl
void_endpoint-answer (ok u) (ok (some q), s) = refl

-- A void through its route leaves the session and the committed tables as the service, with 404 for
-- what it does not find, leaves them in `get_db`, whether or not the invalidation of the balances,
-- which comes after its COMMIT, raises; and it is answered by what the service raises, or else by what
-- the invalidation raises, or else by the original and the reversal.
pub void_transaction_endpoint-get_db :
    (invalidated : Result (Unit {0})) (id user_id : Uuid) (s : Session)
    → get_db (void_transaction_endpoint invalidated id user_id) s ≡ (
      answered_as (void_answer invalidated) (get_db (voided_or_missing id user_id) s).0,
      (get_db (voided_or_missing id user_id) s).1,
    )
unfolding get_db void_transaction_endpoint
void_transaction_endpoint-get_db invalidated id user_id s =
    ap (λ p. or_rollback (then_commit p))
      (void_endpoint-answer invalidated (void_transaction id user_id s))
    ∙ commit_then-published (void_answer invalidated) (voided_or_missing id user_id s)

voided-ok :
    (p : Result (Option (Loaded × Loaded)) × Session) {pair : Loaded × Loaded} {s' : Session}
    → ((λ _. p) >>= λ result. lift (found_or missing_transaction result)) p.1 ≡ (ok pair, s')
    → p ≡ (ok (some pair), s')
voided-ok (err x, s) h = cc
voided-ok (ok none, s) h = cc
voided-ok (ok (some q), s) h = ground arith

-- A void that the service has answered has published what the service did.
pub voided_or_missing-ok :
    (id user_id : Uuid) (s : Session) {pair : Loaded × Loaded} {s' : Session}
    → get_db (voided_or_missing id user_id) s ≡ (ok pair, s')
    → (s₁ : Session) × (void_transaction id user_id s ≡ (ok (some pair), s₁)) × (s' ≡ published s₁)
voided_or_missing-ok id user_id s h =
    let (s₁, p, fired, after) = get_db-ok (voided_or_missing id user_id) s h in
    (s₁, voided-ok (void_transaction id user_id s) p, after)
