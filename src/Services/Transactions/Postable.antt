-- ===== src/Services/Transactions/Postable.antt =====
-- What the checks of `create_transaction` establish.
use payment_ledger_api.Common.{
  ltb, false, length, All-of_to_set, ◌≡◌, refl, ap, sym, ◌∙◌, String, true, ◌&&◌, some, List, [],
  ◌∷◌, map, filter, any, All, contains, to_set, lookup, ◌==◌, nat_eq, string_eq, nat_beq_iff,
  Bool-cases, Option-cases, ◌⊎◌, inl, inr, arith,
}
use payment_ledger_api.Model.{Uuid, Direction, direction_eq, Account}
use payment_ledger_api.Errors.{ok, Result-cases}
use payment_ledger_api.Schemas.{EntryCreate, TransactionCreate}
use payment_ledger_api.Db.{Db}
use payment_ledger_api.Repositories.Accounts.{find_active_by_ids}
use payment_ledger_api.Services.Transactions.Rules.{
  check_payload, mismatched, amount_sum, account_ids_of,
}

abbrev pub IsAccountIn : Account → List Account → Type 0
IsAccountIn a [] = ⊥
IsAccountIn a (b ∷ bs) = (a ≡ b) ⊎ IsAccountIn a bs

-- An active account of the table that an entry may be posted to.
pub record IsAccountFor (accounts : List Account) (e : EntryCreate) : Type 0 where
  pub account : Account
  pub stored : IsAccountIn account accounts
  pub same_id : account.id ≡ e.account_id
  pub active : account.is_active ≡ true
  pub same_currency : account.currency ≡ e.currency

pub record IsPostable (payload : TransactionCreate) (db : Db) : Type 0 where
  pub accounts : All (IsAccountFor db.accounts) payload.entries
  pub currency : String
  pub same_currency : All (λ e. e.currency ≡ currency) payload.entries
  pub debits : any (λ e. e.direction == Direction.debit) payload.entries ≡ true
  pub credits : any (λ e. e.direction == Direction.credit) payload.entries ≡ true
  pub balanced :
      amount_sum Direction.debit payload.entries ≡ amount_sum Direction.credit payload.entries

mismatched-nil :
    (es : List EntryCreate) (found : List (Uuid × String))
    → mismatched es found ≡ ok []
    → All (λ e. lookup e.account_id found ≡ some e.currency) es
unfolding mismatched
mismatched-nil [] found h = tt
mismatched-nil (e ∷ es) found h = elim (Option-cases (lookup e.account_id found)) [
  | inl none_left ↦ ground arith
  | inr (currency, p) ↦ elim (Result-cases (mismatched es found)) [
    | inr (x, q) ↦ ground arith
    | inl (rest, q) ↦ elim (Bool-cases (e.currency == currency)) [
      | inr differ ↦ ground arith
      | inl same ↦
          (let nothing : rest ≡ [] = ground arith in
            (
              p ∙ ap (λ c. some c) (sym ((string_eq.equals_iff e.currency currency).0 same)),
              mismatched-nil es found (q ∙ ap (λ r. ok r) nothing),
            ))
    ]
  ]
]

-- What the dict of active accounts says under an id comes from an active account.
lookup-account :
    (ids : List Uuid) (e : EntryCreate) (accounts : List Account)
    → lookup e.account_id
        (map (λ a. (a.id, a.currency)) (filter (λ a. contains ids a.id && a.is_active) accounts))
      ≡ some e.currency
    → IsAccountFor accounts e
lookup-account ids e [] h = cc
lookup-account ids e (a ∷ as_) h = elim (Bool-cases (contains ids a.id && a.is_active)) [
  | inr out ↦ later (lookup-account ids e as_ (rw out at h))
  | inl kept ↦ elim (Bool-cases (e.account_id == a.id)) [
    | inr other ↦ later (lookup-account ids e as_ (ground (arith, kept, other)))
    | inl here ↦
        (let h' : some a.currency ≡ some e.currency = ground (arith, kept, here) in
          record {
            account = a;
            stored = inl refl;
            same_id = sym ((nat_beq_iff e.account_id a.id).0 here);
            active = ground (arith, kept);
            same_currency = cc;
          })
  ]
]
  where
    later : IsAccountFor as_ e → IsAccountFor (a ∷ as_) e
    later f = record {
      account = f.account;
      stored = inr f.stored;
      same_id = f.same_id;
      active = f.active;
      same_currency = f.same_currency;
    }

All-lookup :
    (ids : List Uuid) (es : List EntryCreate) (db : Db)
    → All (λ e. lookup e.account_id (find_active_by_ids ids db) ≡ some e.currency) es
    → All (IsAccountFor db.accounts) es
unfolding find_active_by_ids
All-lookup ids [] db h = tt
All-lookup ids (e ∷ es) db h = (lookup-account ids e db.accounts h.0, All-lookup ids es db h.1)

pub contains-side :
    (side : Direction) (es : List EntryCreate)
    → contains (to_set (map (λ e. e.direction) es)) side ≡ any (λ e. e.direction == side) es
contains-side side [] = refl
contains-side side (e ∷ es) = ground (arith, contains-side side es, contains-side e.direction es)

All-currency :
    (c : String) (es : List EntryCreate)
    → All (λ d. d ≡ c) (map (λ e. e.currency) es)
    → All (λ e. e.currency ≡ c) es
All-currency c [] h = tt
All-currency c (e ∷ es) h = (h.0, All-currency c es h.1)

All-of_currencies :
    (es : List EntryCreate)
    → ltb 1 (length (to_set (map (λ e. e.currency) es))) ≡ false
    → (c : String) × All (λ e. e.currency ≡ c) es
All-of_currencies [] h = ("USD", tt)
All-of_currencies (e ∷ es) h =
    let (c, all) = All-of_to_set e.currency (map (λ f. f.currency) es) h in
    (c, All-currency c (e ∷ es) all)

-- A payload that passes the checks has only entries on active accounts, all in one currency, debits
-- and credits among them, and debits that equal its credits.
pub check_payload-IsPostable :
    (payload : TransactionCreate) (db : Db)
    → check_payload payload db ≡ ok tt
    → IsPostable payload db
unfolding check_payload
check_payload-IsPostable payload db h =
    let es = payload.entries in
    let found = find_active_by_ids (account_ids_of es) db in
    let none_wrong : mismatched es found ≡ ok [] = ground arith in
    let few : ltb 1 (length (to_set (map (λ e. e.currency) es))) ≡ false = ground arith in
    let one = All-of_currencies es few in
    record {
      accounts = All-lookup (account_ids_of es) es db (mismatched-nil es found none_wrong);
      currency = one.0;
      same_currency = one.1;
      debits = sym (contains-side Direction.debit es) ∙ ground arith;
      credits = sym (contains-side Direction.credit es) ∙ ground arith;
      balanced = ground arith;
    }
