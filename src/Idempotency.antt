-- ===== src/Idempotency.antt =====
-- app/dependencies/idempotency.py, around a handler as FastAPI runs it. Redis, `json` and `hashlib`
-- are not in the repository: they are the parameters `Redis`, `Codec` and `sha256`.
pub mod Admission
pub mod Retry
use Prim.Native.String.{◌++◌ as str_append}
use payment_ledger_api.Common.{
  ℕ, String, Bool, true, false, not, Option, none, some, ◌≡◌, ◌==◌, string_eq, if◌then◌else◌,
}
use payment_ledger_api.Errors.{
  Error, Result, ok, err, http_exception, redis_error, key_already_used, key_reused,
}

-- The commands that are used, on a store of raw values; the laws are those of the Redis
-- documentation for a key that does not expire during the calls.
pub record Redis (Raw : Type 0) : Type 1 where
  pub Store : Type 0
  pub get : String → Store → Option Raw
  pub set : String → Raw → Store → Store
  pub set_nx : String → Raw → Store → Bool × Store
  pub delete : String → Store → Store
  pub get-set : (k : String) (v : Raw) (s : Store) → get k (set k v s) ≡ some v
  pub get-delete : (k : String) (s : Store) → get k (delete k s) ≡ none
  pub set_nx-free :
      (k : String) (v : Raw) (s : Store) → get k s ≡ none → set_nx k v s ≡ (true, set k v s)
  pub set_nx-taken :
      (k : String) (v w : Raw) (s : Store) → get k s ≡ some w → set_nx k v s ≡ (false, s)

-- The object that is stored under a key: `response` is missing while the request is pending.
pub record Stored (B : Type 0) : Type 0 where
  pub fingerprint : String
  pub response : Option B

-- `json.dumps` and `json.loads`, which may fail to decode.
pub record Codec (Raw B : Type 0) : Type 0 where
  pub dumps : Stored B → Raw
  pub loads : Raw → Option (Stored B)
  pub loads-dumps : (x : Stored B) → loads (dumps x) ≡ some x

-- What becomes of a command on its way: a `lost` reply leaves the effect and raises.
pub data Reply : Type 0 where
  answered refused lost : Reply

-- The replies to the commands of one request.
pub record Replies : Type 0 where
  pub on_set_nx : Reply
  pub on_get : Reply
  pub on_cache : Reply
  pub on_delete : Reply

-- What `check_idempotency` yields: no key, a stored response, or the key and the fingerprint of a
-- request that runs.
pub data Context (B : Type 0) : Type 0 where
  unchecked : Context B
  replayed : B → Context B
  admitted : (redis_key fingerprint : String) → Context B

abbrev pub redis_key_of : String → String
redis_key_of key = str_append "idempotency:" key

abbrev pub pending : {B : Type 0} → String → Stored B
pending fingerprint = record { fingerprint = fingerprint; response = none }

abbrev pub done : {B : Type 0} → String → B → Stored B
done fingerprint body = record { fingerprint = fingerprint; response = some body }

abbrev pub already_used : Error
already_used = http_exception 409 key_already_used

module _ {Raw B : Type 0} (R : Redis Raw) (J : Codec Raw B) (sha256 : String → String) where
  abbrev pub call : {A : Type 0} → Reply → (R.Store → A × R.Store) → R.Store → Result A × R.Store
  call Reply.answered f s = (ok (f s).0, (f s).1)
  call Reply.refused f s = (err redis_error, s)
  call Reply.lost f s = (err redis_error, (f s).1)

  -- What is known of a key that is taken.
  unfoldable pub judge : String → Option Raw → Result (Context B)
  judge fingerprint none = err already_used
  judge fingerprint (some raw) = elim (J.loads raw) [
    | none ↦ err already_used
    | some stored ↦
        if not (stored.fingerprint == fingerprint)
        then err (http_exception 422 key_reused)
        else elim stored.response [
          | some body ↦ ok (Context.replayed body)
          | none ↦ err already_used
        ]
  ]

  abbrev judged : String → Result (Option Raw) × R.Store → Result (Context B) × R.Store
  judged fingerprint (ok raw, s) = (judge fingerprint raw, s)
  judged fingerprint (err x, s) = (err x, s)

  abbrev looked_up :
      String → String → Replies → Result Bool × R.Store → Result (Context B) × R.Store
  looked_up redis_key fingerprint replies (ok true, s) =
      (ok (Context.admitted redis_key fingerprint), s)
  looked_up redis_key fingerprint replies (ok false, s) =
      judged fingerprint (call replies.on_get (λ t. (R.get redis_key t, t)) s)
  looked_up redis_key fingerprint replies (err x, s) = (err x, s)

  -- `check_idempotency` up to its `yield`.
  unfoldable pub check_idempotency :
      Option String → String → Replies → R.Store → Result (Context B) × R.Store
  unfolding judge
  check_idempotency none body replies s = (ok Context.unchecked, s)
  check_idempotency (some key) body replies s =
      let fingerprint = sha256 body in
      let redis_key = redis_key_of key in
      looked_up redis_key fingerprint replies
        (call replies.on_set_nx (R.set_nx redis_key (J.dumps (pending fingerprint))) s)

  -- `IdempotencyContext.cache`
  unfoldable pub cache : Context B → B → Replies → R.Store → Result (Unit {0}) × R.Store
  cache (Context.admitted redis_key fingerprint) body replies s =
      call replies.on_cache (λ t. (tt, R.set redis_key (J.dumps (done fingerprint body)) t)) s
  cache Context.unchecked body replies s = (ok tt, s)
  cache (Context.replayed response) body replies s = (ok tt, s)

  -- An error of the DELETE takes the place of the first one.
  abbrev or_new : Error → Result (Unit {0}) × R.Store → Error × R.Store
  or_new e (ok u, s) = (e, s)
  or_new e (err x, s) = (x, s)

  -- The `except` around the `yield`.
  unfoldable pub release : Context B → Error → Replies → R.Store → Error × R.Store
  release (Context.admitted redis_key fingerprint) e replies s =
      or_new e (call replies.on_delete (λ t. (tt, R.delete redis_key t)) s)
  release Context.unchecked e replies s = (e, s)
  release (Context.replayed response) e replies s = (e, s)

  -- A route that is guarded by the dependency, on the state `W` of its handler, as
  -- `post_transaction` uses it: a replay is answered by 200, and a response that the handler
  -- computed is cached and answered by 201.
  module _ {W : Type 0} (handler : W → Result B × W) where
    abbrev failed : W → Error × R.Store → Result (ℕ × B) × (W × R.Store)
    failed w (e, s) = (err e, (w, s))

    abbrev pub cached :
        Context B → Replies → B → W → Result (Unit {0}) × R.Store → Result (ℕ × B) × (W × R.Store)
    cached ctx replies body w (ok u, s) = (ok (201, body), (w, s))
    cached ctx replies body w (err x, s) = failed w (release ctx x replies s)

    abbrev pub answered_by :
        Context B → Replies → Result B × W → R.Store → Result (ℕ × B) × (W × R.Store)
    answered_by ctx replies (ok body, w) s = cached ctx replies body w (cache ctx body replies s)
    answered_by ctx replies (err x, w) s = failed w (release ctx x replies s)

    abbrev pub in_context :
        Replies → W → Result (Context B) × R.Store → Result (ℕ × B) × (W × R.Store)
    in_context replies w (err x, s) = (err x, (w, s))
    in_context replies w (ok (Context.replayed response), s) = (ok (200, response), (w, s))
    in_context replies w (ok Context.unchecked, s) =
        answered_by Context.unchecked replies (handler w) s
    in_context replies w (ok (Context.admitted redis_key fingerprint), s) =
        answered_by (Context.admitted redis_key fingerprint) replies (handler w) s

    unfoldable pub guarded :
        Option String → String → Replies → W × R.Store → Result (ℕ × B) × (W × R.Store)
    unfolding check_idempotency cache release
    guarded key body replies (w, s) = in_context replies w (check_idempotency key body replies s)
