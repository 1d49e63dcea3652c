-- ===== src/Services/Transactions/Rules.antt =====
-- The checks of `create_transaction`, in the order of the source: the first that fails raises.
use payment_ledger_api.Common.{
  ℕ, String, Bool, true, false, not, ◌||◌, none, some, List, [], ◌∷◌, map, filter, length,
  sum_where, contains, to_set, lookup, ltb, ◌==◌, nat_eq, string_eq, if◌then◌else◌,
}
use payment_ledger_api.Model.{Uuid, Direction, direction_eq}
use payment_ledger_api.Errors.{
  Error, Result, ok, err, validation_error, key_error, unknown_accounts, one_sided,
  mixed_currencies, currency_mismatch, not_balanced, ◌>>=◌,
}
use payment_ledger_api.Schemas.{EntryCreate, TransactionCreate}
use payment_ledger_api.Db.{Db}
use payment_ledger_api.Repositories.Accounts.{find_active_by_ids}

-- `BASE_CURRENCY`
abbrev pub base_currency : String
base_currency = "USD"

abbrev pub raise_if : Bool → Error → Result (Unit {0})
raise_if true e = err e
raise_if false e = ok tt

abbrev is_empty {ℓ} : {A : Type ℓ} → List A → Bool
is_empty [] = true
is_empty (x ∷ xs) = false

abbrev pub account_ids_of : List EntryCreate → List Uuid
account_ids_of entries = to_set (map (λ e. e.account_id) entries)

abbrev pub keys : List (Uuid × String) → List Uuid
keys found = map (λ p. p.0) found

-- `account_ids - found_ids.keys()`
abbrev pub missing_of : List Uuid → List (Uuid × String) → List Uuid
missing_of ids found = filter (λ id. not (contains (keys found) id)) ids

-- `[e for e in payload.entries if e.currency != found_ids[e.account_id]]`
unfoldable pub mismatched : List EntryCreate → List (Uuid × String) → Result (List EntryCreate)
mismatched [] found = ok []
mismatched (e ∷ es) found = elim (lookup e.account_id found) [
  | none ↦ err key_error
  | some currency ↦ elim (mismatched es found) [
    | ok rest ↦ ok (if e.currency == currency then rest else e ∷ rest)
    | err x ↦ err x
  ]
]

-- `sum(e.amount for e in payload.entries if e.direction == side)`
abbrev pub amount_sum : Direction → List EntryCreate → ℕ
amount_sum side entries = sum_where (λ e. e.direction == side) (λ e. e.amount) entries

unfoldable pub check_accounts : List EntryCreate → List (Uuid × String) → Result (Unit {0})
check_accounts entries found =
    let missing = missing_of (account_ids_of entries) found in
    raise_if (not (is_empty missing)) (validation_error (unknown_accounts missing))

unfoldable pub check_directions : List EntryCreate → Result (Unit {0})
check_directions entries =
    let directions = to_set (map (λ e. e.direction) entries) in
    raise_if
      (not (contains directions Direction.debit) || not (contains directions Direction.credit))
      (validation_error one_sided)

unfoldable pub check_one_currency : List EntryCreate → Result (Unit {0})
check_one_currency entries =
    let currencies = to_set (map (λ e. e.currency) entries) in
    raise_if (ltb 1 (length currencies)) (validation_error (mixed_currencies currencies))

unfoldable pub check_account_currency : List EntryCreate → List (Uuid × String) → Result (Unit {0})
unfolding mismatched
check_account_currency entries found = do
  wrong ← mismatched entries found
  raise_if (not (is_empty wrong))
      (validation_error (currency_mismatch (map (λ e. e.account_id) wrong)))

unfoldable pub check_balance : List EntryCreate → Result (Unit {0})
check_balance entries =
    let debit_sum = amount_sum Direction.debit entries in
    let credit_sum = amount_sum Direction.credit entries in
    raise_if (not (debit_sum == credit_sum)) (validation_error (not_balanced debit_sum credit_sum))

unfoldable pub check_payload : TransactionCreate → Db → Result (Unit {0})
unfolding check_accounts check_directions check_one_currency check_account_currency check_balance
check_payload payload db = do
  let entries = payload.entries
  let found = find_active_by_ids (account_ids_of entries) db
  _ ← check_accounts entries found
  _ ← check_directions entries
  _ ← check_one_currency entries
  _ ← check_account_currency entries found
  check_balance entries
