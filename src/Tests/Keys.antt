-- ===== src/Tests/Keys.antt =====
-- The sale of `Runs` under an Idempotency-Key, with a store that is a function.
use payment_ledger_api.Common.{
  String, Bool, true, false, Option, none, some, ◌≡◌, ◌≢◌, refl, ◌==◌, string_eq, if◌then◌else◌,
}
use payment_ledger_api.Errors.{
  ok, err, Result, http_exception, redis_error, key_reused, validation_error, one_sided,
}
use payment_ledger_api.Session.{Session, get_db}
use payment_ledger_api.Repositories.Transactions.{Loaded}
use payment_ledger_api.Services.Transactions.{create_transaction}
use payment_ledger_api.Idempotency.{
  Redis, Codec, Stored, Reply, Context, redis_key_of, pending, done, already_used,
  check_idempotency, cache, guarded,
}
use payment_ledger_api.Idempotency.Retry.{
  reliable, guarded-replays, guarded-mismatch, guarded-in_flight, guarded-released, guarded-twice,
}
use payment_ledger_api.Tests.Demo.{sale_eur}
use payment_ledger_api.Tests.Runs.{start, sold}
use payment_ledger_api.Tests.Requests.{
  after_request, request_runs, one_sided_sale, refused, sale_refused,
}

abbrev Raw : Type 0
Raw = Stored Loaded

abbrev Store : Type 0
Store = String → Option Raw

abbrev set_nx : String → Raw → Store → Bool × Store
set_nx k v s = elim (s k) [
  | none ↦ (true, λ j. if j == k then some v else s j)
  | some w ↦ (false, s)
]

same_key : (k : String) → (k == k) ≡ true
same_key k = (string_eq.equals_iff k k).1 refl

abbrev redis : Redis Raw
redis = record {
  Store = Store;
  get = λ k s. s k;
  set = λ k v s j. if j == k then some v else s j;
  set_nx = set_nx;
  delete = λ k s j. if j == k then none else s j;
  get-set = λ k v s. rw (same_key k) refl;
  get-delete = λ k s. rw (same_key k) refl;
  set_nx-free = λ k v s h. rw (set_nx, h) refl;
  set_nx-taken = λ k v w s h. rw (set_nx, h) refl;
}

abbrev json : Codec Raw Loaded
json = record { dumps = λ x. x; loads = λ x. some x; loads-dumps = λ x. refl }

-- A stand-in for the hash: any function will do.
abbrev sha256 : String → String
sha256 body = body

abbrev no_keys : Store
no_keys k = none

abbrev post : Session → Result Loaded × Session
post = get_db (create_transaction sale_eur 7)

abbrev recorded : Store
recorded =
    redis.set (redis_key_of "k") (done "body" sold)
      (redis.set (redis_key_of "k") (pending "body") no_keys)

first_answered :
    guarded redis json sha256 post (some "k") "body" reliable (start, no_keys)
    ≡ (ok (201, sold), (after_request, recorded))
unfolding guarded check_idempotency cache
first_answered = rw request_runs refl

bodies_differ : sha256 "body" ≢ sha256 "another"
bodies_differ h = cc

lost_is_no_answer : Reply.lost ≢ Reply.answered
lost_is_no_answer h = cc

guarded-replays_example :
    guarded redis json sha256 post (some "k") "body" reliable (after_request, recorded)
    ≡ (ok (200, sold), (after_request, recorded))
guarded-replays_example =
    guarded-replays redis json sha256 post "k" "body" reliable reliable start after_request
      after_request no_keys recorded 201 sold first_answered refl refl

guarded-mismatch_example :
    guarded redis json sha256 post (some "k") "another" reliable (after_request, recorded)
    ≡ (err (http_exception 422 key_reused), (after_request, recorded))
guarded-mismatch_example =
    guarded-mismatch redis json sha256 post "k" "body" "another" reliable reliable start
      after_request after_request no_keys recorded 201 sold first_answered bodies_differ refl refl

guarded-in_flight_example :
    (s₁ : Store) × (check_idempotency redis json sha256 (some "k") "body" reliable no_keys
      ≡ (ok (Context.admitted (redis_key_of "k") "body"), s₁))
    × (guarded redis json sha256 post (some "k") "body" reliable (start, s₁)
        ≡ (err already_used, (start, s₁)))
guarded-in_flight_example =
    guarded-in_flight redis json sha256 post "k" "body" reliable reliable start no_keys refl refl
      refl refl

abbrev bad_post : Session → Result Loaded × Session
bad_post = get_db (create_transaction one_sided_sale 7)

guarded-released_example :
    (s' : Store) × (guarded redis json sha256 bad_post (some "k") "body" reliable (start, no_keys)
      ≡ (err (validation_error one_sided), (refused, s')))
    × (s' (redis_key_of "k") ≡ none)
guarded-released_example =
    guarded-released redis json sha256 bad_post "k" "body" start refused no_keys
      (validation_error one_sided) refl sale_refused

guarded-twice_example :
    (s' : Store) × (guarded redis json sha256 post
        (some "k")
        "body"
        (record reliable { on_cache = Reply.lost })
        (start, no_keys)
      ≡ (err redis_error, (after_request, s')))
    × ((guarded redis json sha256 post (some "k") "body" reliable (after_request, s')).1.0
        ≡ (post after_request).1)
guarded-twice_example =
    guarded-twice redis json sha256 post "k" "body" Reply.lost start after_request no_keys sold refl
      request_runs lost_is_no_answer
