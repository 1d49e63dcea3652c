-- ===== src/Tests/Cache.antt =====
-- The sale of `Runs` with a balance cache, whose store is a list of keys and values.
use Prim.Native.String.{count, ◌++◌ as str_append}
use text.Mathlib.TextLemmas.{
  append_assoc, append_cancel_left, append_inj, length-append, nil-append,
}
use payment_ledger_api.Common.{
  ℕ, zero, suc, String, false, not, none, List, [], ◌∷◌, map, filter, contains, contains-keys,
  lookup, to_set, ◌≡◌, ◌≢◌, refl, ap, sym, ◌∙◌, ◌==◌, nat_eq, string_eq, equals_refl, Bool-cases,
  inl, inr, if◌then◌else◌, arith,
}
use payment_ledger_api.Common.Int.{pos}
use payment_ledger_api.Errors.{ok, err, redis_error}
use payment_ledger_api.Idempotency.{Reply}
use payment_ledger_api.BalanceCache.{
  Redis, Codec, CachedBalance, Settings, response, compute, ttl_of, write_back, get_account_balance,
}
use payment_ledger_api.BalanceCache.Keys.{Texts, key_of, invalidated}
use payment_ledger_api.BalanceCache.Reads.{IsCoherent, uncached}
use payment_ledger_api.BalanceCache.Serves.{Serves, ServesAll, get_account_balance-always_exact}
use payment_ledger_api.BalanceCache.Events.{answered}
use payment_ledger_api.BalanceCache.Race.{get_account_balance-overtaken}
use payment_ledger_api.Db.{Db}
use payment_ledger_api.Session.{Session, get_db}
use payment_ledger_api.Repositories.{scalar_one_or_none}
use payment_ledger_api.Repositories.Accounts.{find_by_id, calculate_balance}
use payment_ledger_api.Routes.{post_transaction}
use payment_ledger_api.Ledger.Effect.{own_balance}
use payment_ledger_api.Ledger.History.{IsOpened}
use payment_ledger_api.Tests.Demo.{demo_db, sale_eur}
use payment_ledger_api.Tests.Runs.{start, sold, after_sale, sale_runs, demo_db-IsLedger}
use payment_ledger_api.Tests.Requests.{after_request, request_runs}

abbrev Store : Type 0
Store = List (String × CachedBalance)

other_way : (k j : String) → (k == j) ≡ false → (j == k) ≡ false
other_way k j h = elim (Bool-cases (j == k)) [
  | inl hit ↦ cc (h, equals_refl k, (string_eq.equals_iff j k).0 hit)
  | inr miss ↦ miss
]

abbrev delete : List String → Store → Store
delete keys s = filter (λ p. not (contains keys p.0)) s

lookup-delete :
    (k : String) (keys : List String) (s : Store)
    → lookup k (delete keys s) ≡ (if contains keys k then none else lookup k s)
lookup-delete k keys [] = ground arith
lookup-delete k keys ((j, v) ∷ s) = elim (Bool-cases (j == k)) [
  | inl own ↦
      (let same = ap (λ x. contains keys x) ((string_eq.equals_iff j k).0 own) in
        ground (arith, own, same, lookup-delete k keys s))
  | inr other ↦ ground (arith, other, lookup-delete k keys s)
]

abbrev redis : Redis CachedBalance
redis = record {
  Store = Store;
  get = λ k s. lookup k s;
  set = λ k v ttl s. (k, v) ∷ s;
  scan_iter = λ p s. map (λ e. e.0) s;
  delete = delete;
  IsPlain = λ p. Unit;
  get-set = λ k v ttl s. rw (equals_refl k) refl;
  get-set-other = λ k j v ttl s h. rw (other_way k j h) refl;
  scan_iter-all = λ prefix rest s h p. contains-keys (str_append prefix rest) s p;
  get-delete = lookup-delete;
}

abbrev json : Codec CachedBalance
json = record { dumps = λ x. x; loads = λ x. ok x; loads-dumps = λ x. refl }

-- A number as that many strokes.
abbrev strokes : ℕ → String
strokes zero = ""
strokes (suc n) = str_append "a" (strokes n)

count-strokes : (n : ℕ) → count (strokes n) ≡ n
count-strokes zero = refl
count-strokes (suc n) = length-append "a" (strokes n) ∙ omega (arith, count-strokes n)

strokes-injective :
    (a b d e : ℕ)
    → str_append (strokes a) (str_append ":" (strokes d))
      ≡ str_append (strokes b) (str_append ":" (strokes e))
    → (a ≡ b) × (d ≡ e)
strokes-injective zero zero d e h =
    let tails = append_cancel_left ":" (strokes d) (strokes e) (
      sym (nil-append (str_append ":" (strokes d)))
      ∙ h
      ∙ nil-append (str_append ":" (strokes e))) in
    (refl, sym (count-strokes d) ∙ ap (λ x. count x) tails ∙ count-strokes e)
strokes-injective zero (suc b) d e h = absurd (
    apart
      (append_inj
        (sym (nil-append (str_append ":" (strokes d)))
          ∙ h
          ∙ append_assoc "a" (strokes b) (str_append ":" (strokes e)))
        refl).0)
  where
    apart : ◌≡◌ {A = String} ":" "a" → ⊥
    apart k = cc
strokes-injective (suc a) zero d e h = absurd (
    apart
      (append_inj
        (sym (append_assoc "a" (strokes a) (str_append ":" (strokes d)))
          ∙ h
          ∙ nil-append (str_append ":" (strokes e)))
        refl).0)
  where
    apart : ◌≡◌ {A = String} "a" ":" → ⊥
    apart k = cc
strokes-injective (suc a) (suc b) d e h =
    let rest = strokes-injective a b d e (
      append_cancel_left "a" _ _ (
        sym (append_assoc "a" (strokes a) (str_append ":" (strokes d)))
        ∙ h
        ∙ append_assoc "a" (strokes b) (str_append ":" (strokes e)))) in
    (ap suc rest.0, rest.1)

abbrev texts : Texts redis
texts = record {
  uuid_text = strokes;
  date_text = strokes;
  plain = λ id. tt;
  injective = λ a b d e h. strokes-injective a b d e h;
}

abbrev settings : Settings
settings = record { balance_cache_ttl_seconds = 60; balance_cache_ttl_historical_seconds = 86400 }

abbrev no_keys : Store
no_keys = []

no_keys-IsCoherent : (db : Db) → IsCoherent redis json texts db no_keys
no_keys-IsCoherent db id as_of raw h = cc

-- A read of the balance of account 12 on day 120, before the sale.
abbrev after_read : Store
after_read =
    (get_account_balance strokes strokes redis json settings 130 Reply.answered Reply.answered 12
      120 demo_db no_keys).1

abbrev after_post : Store
after_post =
    invalidated redis texts answered (to_set (map (λ e. e.account_id) sale_eur.entries)) after_read

start-IsOpened : IsOpened demo_db start
start-IsOpened = record { sees = refl; committed = refl; added = refl; deferred = refl }

-- The sale through its route, where the caching of its response fails.
abbrev after_failed_cache : Session
after_failed_cache = (get_db (post_transaction none (ok tt) (err redis_error) sale_eur 7) start).1

read_then_sale : ServesAll redis json texts demo_db no_keys after_failed_cache.committed after_post
read_then_sale =
    ServesAll.next
      (ServesAll.next ServesAll.here
        (Serves.read settings 130 Reply.answered Reply.answered 12 120))
      (Serves.post (err redis_error) sale_eur 7 start sold after_request start-IsOpened
        request_runs)

-- A read of the same balance after the sale, whose SET is lost.
get_account_balance-always_exact_example :
    (get_account_balance strokes strokes redis json settings 130 Reply.answered Reply.lost 12 120
      after_failed_cache.committed after_post).0
    ≡ uncached 12 120 after_failed_cache.committed
get_account_balance-always_exact_example =
    get_account_balance-always_exact redis json texts demo_db no_keys after_failed_cache.committed
      after_post settings 130 Reply.answered Reply.lost 12 120 read_then_sale demo_db-IsLedger
      (no_keys-IsCoherent demo_db)

abbrev nothing : CachedBalance
nothing = record { balance = pos 0; currency = "EUR" }

before_sale : compute 12 120 demo_db ≡ ok nothing
unfolding compute find_by_id calculate_balance scalar_one_or_none
before_sale = refl

sale_moves : own_balance 12 120 sold ≢ pos 0
sale_moves h = cc

get_account_balance-overtaken_example :
    ((get_account_balance strokes strokes redis json settings 130 Reply.answered Reply.answered 12
        120 after_sale.db
        (write_back redis json Reply.answered
          (key_of redis texts 12 120)
          nothing
          (ttl_of settings 120 130)
          (invalidated redis texts answered
            (to_set (map (λ e. e.account_id) sale_eur.entries))
            no_keys))).0
      ≡ ok (response nothing 120))
    × (uncached 12 120 after_sale.db ≢ ok (response nothing 120))
get_account_balance-overtaken_example =
    get_account_balance-overtaken redis json texts settings 130 answered Reply.answered 12 120
      sale_eur 7 start no_keys nothing before_sale sale_runs demo_db-IsLedger sale_moves
