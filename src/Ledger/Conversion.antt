-- ===== src/Ledger/Conversion.antt =====
-- The USD amounts that `create_transaction` stores: one rate for the whole transaction, each entry
-- rounded on its own.
use mathlib.Core.Path.{subst}
use payment_ledger_api.Common.{
  ℕ, ◌+◌, ◌≡◌, ◌⊎◌, refl, ap, sym, String, Option, some, none, List, [], ◌∷◌, arith, ◌==◌,
  string_eq, Bool-cases, Option-cases, inl, inr,
}
use payment_ledger_api.Money.{Decimal, decimal_one, numeric8, convert_amount_usd}
use payment_ledger_api.Model.{Uuid, Date, Entry, Currency, ExchangeRate}
use payment_ledger_api.Errors.{
  validation_error, unknown_currency, no_base_currency, no_exchange_rate, Error, Result, ok, err,
  Result-cases,
}
use payment_ledger_api.Schemas.{EntryCreate, TransactionCreate}
use payment_ledger_api.Db.{Db}
use payment_ledger_api.Session.{Session, Action, pure, lift, ◌>>=◌}
use payment_ledger_api.Repositories.Currencies.{find_by_code, find_exchange_rate}
use payment_ledger_api.Repositories.Transactions.{NewEntry, Loaded}
use payment_ledger_api.Repositories.Transactions.Save.{rows}
use payment_ledger_api.Services.Transactions.{
  found_or, resolve_usd_conversion_rate, lookup_rate, new_entry, converted_amounts, new_entries,
  create_transaction,
}
use payment_ledger_api.Services.Transactions.Create.{create_transaction-ok, posted_header}
use payment_ledger_api.Ledger.{IsLedger}
use payment_ledger_api.Ledger.Effect.{loaded-rows}
use payment_ledger_api.Services.Transactions.Rules.{base_currency}

-- An entry of the ledger records an entry of the request, converted at a rate.
pub record Records (rate : Decimal) (e : EntryCreate) (r : Entry) : Type 0 where
  pub account : r.account_id ≡ e.account_id
  pub direction : r.direction ≡ e.direction
  pub amount : r.amount ≡ e.amount
  pub currency : r.currency ≡ e.currency
  pub usd : convert_amount_usd e.amount rate ≡ some r.converted_amount_usd

-- Entry by entry, in the order of the request.
abbrev pub AllRecorded : Decimal → List EntryCreate → List Entry → Type 0
AllRecorded rate [] [] = Unit
AllRecorded rate (e ∷ es) (r ∷ rs) = Records rate e r × AllRecorded rate es rs
AllRecorded rate _ _ = ⊥

pub AllRecorded-rows :
    (rate : Decimal) (es : List EntryCreate) (usds : List ℕ) (news : List NewEntry)
    (uuid4 : ℕ → Uuid) (n : ℕ) (id : Uuid)
    → converted_amounts es rate ≡ ok usds
    → new_entries es usds ≡ ok news
    → AllRecorded rate es (rows uuid4 n id news)
unfolding converted_amounts new_entries
AllRecorded-rows rate [] [] news uuid4 n id h k = let empty : news ≡ [] = cc in rw empty tt
AllRecorded-rows rate [] (u ∷ us) news uuid4 n id h k = cc
AllRecorded-rows rate (e ∷ es) usds news uuid4 n id h k =
    elim (Option-cases (convert_amount_usd e.amount rate)) [
      | inl bad ↦ ground arith
      | inr (u, p) ↦ elim (Result-cases (converted_amounts es rate)) [
        | inr (x, q) ↦ ground arith
        | inl (us, q) ↦ elim (Result-cases (new_entries es us)) [
          | inr (x, r) ↦ ground arith
          | inl (more, r) ↦
              (let both : usds ≡ u ∷ us = ground arith in
                let first : news ≡ new_entry e u ∷ more = ground arith in
                rw first (
                  record {
                    account = refl;
                    direction = refl;
                    amount = refl;
                    currency = refl;
                    usd = p;
                  },
                  AllRecorded-rows rate es us more uuid4 (n + 1) id q r,
                ))
        ]
      ]
    ]

-- In a ledger that keeps the invariant, every entry of a transaction that was created records the entry of the request in its place:
-- the same account, direction, amount and currency, and the amount in USD at the one rate that was
-- resolved for the transaction's currency code and date.
pub create_transaction-records :
    (payload : TransactionCreate) (user_id : Uuid) (s : Session) {loaded : Loaded} {s' : Session}
    → create_transaction payload user_id s ≡ (ok loaded, s')
    → IsLedger s.db
    → (rate : Decimal) × (resolve_usd_conversion_rate payload.currency_code payload.transaction_date
          s
        ≡ (ok rate, s))
      × AllRecorded rate payload.entries loaded.entries
create_transaction-records payload user_id s h inv =
    let c = create_transaction-ok payload user_id s h in
    (
      c.rate,
      c.resolved,
      subst (AllRecorded c.rate payload.entries)
          (sym (loaded-rows (posted_header payload s) c.news s c.saved inv))
          (AllRecorded-rows c.rate payload.entries c.converted c.news s.uuid4 (s.draws + 1)
            (s.uuid4 s.draws) c.conversion c.zipped),
    )

-- Where a rate comes from that was looked up.
pub record LookedUp (code : String) (on : Date) (db : Db) (rate : Decimal) : Type 0 where
  pub from_currency : Currency
  pub from_found : find_by_code code db ≡ ok (some from_currency)
  pub to_currency : Currency
  pub to_found : find_by_code base_currency db ≡ ok (some to_currency)
  pub row : ExchangeRate
  pub row_found : find_exchange_rate from_currency.id to_currency.id on db ≡ ok (some row)
  pub rate_lem : rate ≡ numeric8 row.rate

-- A query that found something, where all else would have raised.
lift_found {ℓ κ} :
    {A : Type ℓ} {B : Type κ} (r : Result (Option A)) (e : Error) (f : A → Action B) (s : Session)
    {b : B} {s' : Session}
    → (lift r >>= λ o. lift (found_or e o) >>= f) s ≡ (ok b, s')
    → (a : A) × (r ≡ ok (some a)) × (f a s ≡ (ok b, s'))
lift_found (ok (some a)) e f s h = (a, refl, h)
lift_found (ok none) e f s h = cc
lift_found (err x) e f s h = cc

ok_same : {a b : Decimal} → ◌≡◌ {A = Result Decimal} (ok a) (ok b) → b ≡ a
ok_same h = cc

-- The steps of `lookup_rate` behind each of its queries.
abbrev rate_of : ExchangeRate → Action Decimal
rate_of x = pure (numeric8 x.rate)

abbrev between : String → Date → Db → Currency → Currency → Action Decimal
between code on db c d = lift (find_exchange_rate c.id d.id on db) >>= λ o.
    lift (found_or (validation_error (no_exchange_rate code on)) o) >>= rate_of

abbrev from_one : String → Date → Db → Currency → Action Decimal
from_one code on db c = lift (find_by_code base_currency db) >>= λ o.
    lift (found_or (validation_error no_base_currency) o) >>= between code on db c

lookup_rate-ok :
    (code : String) (on : Date) (s : Session) {rate : Decimal} {s' : Session}
    → lookup_rate code on s ≡ (ok rate, s')
    → LookedUp code on s.db rate
unfolding lookup_rate
lookup_rate-ok code on s h =
    let db = s.db in
    let (c, p, h₁) =
      lift_found (find_by_code code db) (validation_error (unknown_currency code))
        (from_one code on db) s h in
    let (d, q, h₂) =
      lift_found (find_by_code base_currency db) (validation_error no_base_currency)
        (between code on db c) s h₁ in
    let (x, r, h₃) =
      lift_found (find_exchange_rate c.id d.id on db) (validation_error (no_exchange_rate code on))
        rate_of s h₂ in
    record {
      from_currency = c;
      from_found = p;
      to_currency = d;
      to_found = q;
      row = x;
      row_found = r;
      rate_lem = ok_same (ap (λ p. p.0) h₃);
    }

-- A rate that was resolved is one, for USD, or comes from the table of rates.
pub resolved-cases :
    (code : String) (on : Date) (s : Session) {rate : Decimal}
    → resolve_usd_conversion_rate code on s ≡ (ok rate, s)
    → ((code ≡ base_currency) × (rate ≡ decimal_one)) ⊎ LookedUp code on s.db rate
unfolding resolve_usd_conversion_rate
resolved-cases code on s h = elim (Bool-cases (code == base_currency)) [
  | inl usd ↦ inl ((string_eq.equals_iff code base_currency).0 usd, ground arith)
  | inr other ↦ inr (lookup_rate-ok code on s (rw other at h))
]
