-- ===== src/Services/Transactions/Complete.antt =====
-- The checks of `create_transaction` refuse nothing that may be posted.
use payment_ledger_api.Common.{
  ◌≡◌, ◌↔◌, refl, ap, sym, ◌∙◌, String, true, false, not, ◌&&◌, some, List, [], ◌∷◌, map, filter,
  any, All, contains, lookup, ◌==◌, nat_eq, string_eq, nat_beq_refl, Bool-cases, inl, inr, arith,
  filter-eq-nil, All-to_set, length-to_set, contains-keys, equals_refl, All-in_set,
}
use payment_ledger_api.Model.{Uuid, Direction, direction_eq, Account}
use payment_ledger_api.Errors.{ok}
use payment_ledger_api.Schemas.{EntryCreate, TransactionCreate}
use payment_ledger_api.Db.{Db}
use payment_ledger_api.Repositories.Accounts.{find_active_by_ids}
use payment_ledger_api.Services.Transactions.Rules.{
  check_payload, mismatched, account_ids_of, missing_of, keys,
}
use payment_ledger_api.Services.Transactions.Postable.{
  IsAccountIn, IsAccountFor, IsPostable, check_payload-IsPostable, contains-side,
}

-- The primary key of the table.
abbrev pub AreDistinctAccounts : List Account → Type 0
AreDistinctAccounts [] = Unit
AreDistinctAccounts (a ∷ rest) = (any (λ r. r.id == a.id) rest ≡ false) × AreDistinctAccounts rest

any-stored :
    (a : Account) (rest : List Account) (id : Uuid)
    → IsAccountIn a rest
    → any (λ r. r.id == id) rest ≡ false
    → (a.id == id) ≡ false
any-stored a [] id m h = absurd m
any-stored a (b ∷ rest) id (inl same) h = rw same (ground arith)
any-stored a (b ∷ rest) id (inr m) h = any-stored a rest id m (ground arith)

-- The active accounts among `ids`, as `find_active_by_ids` returns them.
abbrev rows_of : List Uuid → List Account → List (Uuid × String)
rows_of ids accounts =
    map (λ a. (a.id, a.currency)) (filter (λ a. contains ids a.id && a.is_active) accounts)

lookup-stored :
    (ids : List Uuid) (accounts : List Account) (a : Account)
    → AreDistinctAccounts accounts
    → IsAccountIn a accounts
    → contains ids a.id ≡ true
    → a.is_active ≡ true
    → lookup a.id (rows_of ids accounts) ≡ some a.currency
lookup-stored ids [] a d m asked active = absurd m
lookup-stored ids (b ∷ rest) a d (inl same) asked active =
    rw⁻¹ same (rw (asked, active, nat_beq_refl a.id) refl)
lookup-stored ids (b ∷ rest) a d (inr m) asked active =
    let other = any-stored a rest b.id m d.0 in
    let ih = lookup-stored ids rest a d.1 m asked active in
    let apart : (b.id == a.id) ≡ false = ground (arith, other) in
    elim (Bool-cases (contains ids b.id && b.is_active)) [
      | inl kept ↦ rw (kept, apart) ih
      | inr left_out ↦ rw left_out ih
    ]

-- Every entry finds the currency of its account, which is its own.
All-lookup_of :
    (ids : List Uuid) (accounts : List Account) (es : List EntryCreate)
    → AreDistinctAccounts accounts
    → All (λ e. contains ids e.account_id ≡ true) es
    → All (IsAccountFor accounts) es
    → All (λ e. lookup e.account_id (rows_of ids accounts) ≡ some e.currency) es
All-lookup_of ids accounts [] d asked h = tt
All-lookup_of ids accounts (e ∷ es) d asked h =
    let a = h.0.account in
    let found =
      lookup-stored ids accounts a d h.0.stored (ap (λ i. contains ids i) h.0.same_id ∙ asked.0)
        h.0.active in
    (
      ap (λ i. lookup i (rows_of ids accounts)) (sym h.0.same_id)
          ∙ found
          ∙ ap (λ c. some c) h.0.same_currency,
      All-lookup_of ids accounts es d asked.1 h.1,
    )

mismatched-none :
    (es : List EntryCreate) (found : List (Uuid × String))
    → All (λ e. lookup e.account_id found ≡ some e.currency) es
    → mismatched es found ≡ ok []
unfolding mismatched
mismatched-none [] found h = refl
mismatched-none (e ∷ es) found h =
    ground (arith, h.0, mismatched-none es found h.1, equals_refl e.currency)

All-not_missing :
    (es : List EntryCreate) (found : List (Uuid × String))
    → All (λ e. lookup e.account_id found ≡ some e.currency) es
    → All (λ id. not (contains (keys found) id) ≡ false) (map (λ e. e.account_id) es)
All-not_missing [] found h = tt
All-not_missing (e ∷ es) found h =
    (rw (contains-keys e.account_id found h.0) refl, All-not_missing es found h.1)

missing_of-eq-nil :
    (es : List EntryCreate) (found : List (Uuid × String))
    → All (λ e. lookup e.account_id found ≡ some e.currency) es
    → missing_of (account_ids_of es) found ≡ []
missing_of-eq-nil es found h =
    filter-eq-nil (λ id. not (contains (keys found) id)) (account_ids_of es)
      (All-to_set (λ id. not (contains (keys found) id) ≡ false) (map (λ e. e.account_id) es)
        (All-not_missing es found h))

All-map_currency :
    (c : String) (es : List EntryCreate)
    → All (λ e. e.currency ≡ c) es
    → All (λ d. d ≡ c) (map (λ e. e.currency) es)
All-map_currency c [] h = tt
All-map_currency c (e ∷ es) h = (h.0, All-map_currency c es h.1)

All-of_map :
    (ids : List Uuid) (es : List EntryCreate)
    → All (λ id. contains ids id ≡ true) (map (λ e. e.account_id) es)
    → All (λ e. contains ids e.account_id ≡ true) es
All-of_map ids [] h = tt
All-of_map ids (e ∷ es) h = (h.0, All-of_map ids es h.1)

check_payload_complete :
    (payload : TransactionCreate) (db : Db)
    → AreDistinctAccounts db.accounts
    → IsPostable payload db
    → check_payload payload db ≡ ok tt
unfolding check_payload find_active_by_ids
check_payload_complete payload db d post =
    let es = payload.entries in
    let ids = account_ids_of es in
    let found =
      All-lookup_of ids db.accounts es d
        (All-of_map ids es (All-in_set (map (λ e. e.account_id) es))) post.accounts in
    let one =
      length-to_set post.currency (map (λ e. e.currency) es)
        (All-map_currency post.currency es post.same_currency) in
    let left = contains-side Direction.debit es ∙ post.debits in
    let right = contains-side Direction.credit es ∙ post.credits in
    let even = post.balanced in
    rw
      (
        missing_of-eq-nil es (rows_of ids db.accounts) found,
        left,
        right,
        one,
        mismatched-none es (rows_of ids db.accounts) found,
      )
      (ground (arith, even))

-- In a table of accounts without two of the same id, a payload passes the checks exactly if it may be
-- posted: each entry is on an active account of its currency, all are in one currency, there are
-- debits and credits, and they are equal.
pub check_payload_iff :
    (payload : TransactionCreate) (db : Db)
    → AreDistinctAccounts db.accounts
    → (check_payload payload db ≡ ok tt) ↔ IsPostable payload db
check_payload_iff payload db d =
    (check_payload-IsPostable payload db, check_payload_complete payload db d)
