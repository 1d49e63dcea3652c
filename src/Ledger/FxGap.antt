-- ===== src/Ledger/FxGap.antt =====
-- The two sides of a transaction in USD: each entry is rounded on its own, so they may differ, and
-- by how much at most.
use mathlib.Core.Path.{subst}
use payment_ledger_api.Common.{
  ℕ, ◌+◌, ◌*◌, ◌^◌, ◌≤◌, ◌<◌, ◌≡◌, ◌⊎◌, String, refl, ap, sym, ◌∙◌, some, List, [], ◌∷◌, length,
  All, sum_where, arith, ◌==◌, Bool-cases, inl, inr,
}
use payment_ledger_api.Money.{Decimal, decimal_one, numeric8, bigint_limit}
use payment_ledger_api.Money.Rounding.{convert_iff, convert_usd_identity}
use payment_ledger_api.Model.{Uuid, Date, Direction, direction_eq, Entry}
use payment_ledger_api.Errors.{ok}
use payment_ledger_api.Schemas.{EntryCreate, TransactionCreate}
use payment_ledger_api.Db.{Db}
use payment_ledger_api.Session.{Session}
use payment_ledger_api.Repositories.Transactions.{Loaded}
use payment_ledger_api.Repositories.Transactions.Save.{IsStorable}
use payment_ledger_api.Services.Transactions.{create_transaction}
use payment_ledger_api.Services.Transactions.Rules.{amount_sum, base_currency}
use payment_ledger_api.Services.Transactions.Create.{create_transaction-ok, posted_header}
use payment_ledger_api.Ledger.{IsLedger}
use payment_ledger_api.Ledger.Effect.{loaded-rows}
use payment_ledger_api.Ledger.Requests.{check_payload-balanced}
use payment_ledger_api.Ledger.Conversion.{
  AllRecorded, LookedUp, create_transaction-records, resolved-cases,
}

abbrev pub usd_sum : Direction → List Entry → ℕ
usd_sum side rs = sum_where (λ r. r.direction == side) (λ r. r.converted_amount_usd) rs

abbrev how_many : Direction → List EntryCreate → ℕ
how_many side es = sum_where (λ e. e.direction == side) (λ e. 1) es

-- A sum of rounded amounts is off by half a cent an entry at most.
record IsNear (n : ℕ) (amount usd k : ℕ) : Type 0 where
  upper : 2 * 10 ^ 8 * usd ≤ 2 * (amount * n) + 10 ^ 8 * k
  lower : 2 * (amount * n) ≤ 2 * 10 ^ 8 * usd + 10 ^ 8 * k

sides-IsNear :
    (n : ℕ) (side : Direction) (es : List EntryCreate) (rs : List Entry)
    → AllRecorded (numeric8 n) es rs
    → All IsStorable rs
    → IsNear n (amount_sum side es) (usd_sum side rs) (how_many side es)
sides-IsNear n side [] [] h k = omega arith
sides-IsNear n side [] (r ∷ rs) h k = absurd h
sides-IsNear n side (e ∷ es) [] h k = absurd h
sides-IsNear n side (e ∷ es) (r ∷ rs) (rec, more) (fits, rest) =
    let ih = sides-IsNear n side es rs more rest in
    let one = (convert_iff e.amount n r.converted_amount_usd fits.usd_fits).0 rec.usd in
    elim (Bool-cases (e.direction == side)) [
      | inl hit ↦ rw (rec.direction, hit) (omega (arith, one.lower, one.upper, ih.lower, ih.upper))
      | inr miss ↦ rw (rec.direction, miss) ih
    ]

same_usd : {a b : ℕ} → some a ≡ some b → a ≡ b
same_usd h = cc

-- At rate one nothing is rounded.
sides-usd :
    (side : Direction) (es : List EntryCreate) (rs : List Entry)
    → AllRecorded decimal_one es rs
    → All IsStorable rs
    → usd_sum side rs ≡ amount_sum side es
sides-usd side [] [] h k = refl
sides-usd side [] (r ∷ rs) h k = absurd h
sides-usd side (e ∷ es) [] h k = absurd h
sides-usd side (e ∷ es) (r ∷ rs) (rec, more) (fits, rest) =
    let small : e.amount < bigint_limit =
      subst (λ m. m < bigint_limit) rec.amount fits.amount_fits in
    let usd : r.converted_amount_usd ≡ e.amount =
      same_usd (sym rec.usd ∙ convert_usd_identity e.amount small) in
    ground (arith, usd, rec.direction, sides-usd side es rs more rest)

both_sides :
    (es : List EntryCreate) → how_many Direction.debit es + how_many Direction.credit es ≡ length es
both_sides [] = omega arith
both_sides (e ∷ es) = ground (arith, both_sides es)

rate_kind :
    {code : String} {on : Date} {db : Db} {rate : Decimal}
    → ((code ≡ base_currency) × (rate ≡ decimal_one)) ⊎ LookedUp code on db rate
    → (rate ≡ decimal_one) ⊎ ((n : ℕ) × (rate ≡ numeric8 n))
rate_kind (inl usd) = inl usd.1
rate_kind (inr found) = inr (found.row.rate, found.rate_lem)

near_each_other :
    (rate : Decimal) (es : List EntryCreate) (rs : List Entry)
    → (rate ≡ decimal_one) ⊎ ((n : ℕ) × (rate ≡ numeric8 n))
    → AllRecorded rate es rs
    → All IsStorable rs
    → amount_sum Direction.debit es ≡ amount_sum Direction.credit es
    → (2 * usd_sum Direction.debit rs ≤ 2 * usd_sum Direction.credit rs + length es)
      × (2 * usd_sum Direction.credit rs ≤ 2 * usd_sum Direction.debit rs + length es)
near_each_other rate es rs (inl one) all fits even =
    let exact =
      λ (side : Direction). sides-usd side es rs (subst (λ x. AllRecorded x es rs) one all) fits in
    omega (arith, exact Direction.debit, exact Direction.credit)
near_each_other rate es rs (inr (n, eight)) all fits even =
    let near = λ (side : Direction).
      sides-IsNear n side es rs (subst (λ x. AllRecorded x es rs) eight all) fits in
    omega (
      arith,
      (near Direction.debit).upper,
      (near Direction.debit).lower,
      (near Direction.credit).upper,
      (near Direction.credit).lower,
      ap (λ (m : ℕ). m * n) even,
      both_sides es,
    )

-- In a ledger that keeps the invariant, the debits and the credits of a transaction that was
-- created, in USD, are apart by at most half a cent
-- for each of its entries, in either direction.
pub create_transaction-fx_gap :
    (payload : TransactionCreate) (user_id : Uuid) (s : Session) {loaded : Loaded} {s' : Session}
    → create_transaction payload user_id s ≡ (ok loaded, s')
    → IsLedger s.db
    → (2 * usd_sum Direction.debit loaded.entries
        ≤ 2 * usd_sum Direction.credit loaded.entries + length payload.entries)
      × (2 * usd_sum Direction.credit loaded.entries
          ≤ 2 * usd_sum Direction.debit loaded.entries + length payload.entries)
create_transaction-fx_gap payload user_id s {loaded} h inv =
    let c = create_transaction-ok payload user_id s h in
    let (rate, resolved, all) = create_transaction-records payload user_id s h inv in
    let kind : (rate ≡ decimal_one) ⊎ ((n : ℕ) × (rate ≡ numeric8 n)) =
      rate_kind (resolved-cases payload.currency_code payload.transaction_date s resolved) in
    let fits : All IsStorable loaded.entries =
      subst (All IsStorable) (sym (loaded-rows (posted_header payload s) c.news s c.saved inv))
        c.saved.storable in
    near_each_other rate payload.entries loaded.entries kind all fits
      (check_payload-balanced payload s.db c.checked)
