-- ===== src/Seed/Once.antt =====
-- What seeding leaves: a ledger, and nothing to do for another run.
use payment_ledger_api.Common.{
  ◌≡◌, refl, ap, ◌∙◌, ◌⊎◌, String, Bool, true, false, List, [], ◌∷◌, ◌++◌, any, any-append,
  All-append, inl, inr, ◌==◌, nat_eq, string_eq, Bool-cases, if◌then◌else◌, equals_refl, arith,
}
use payment_ledger_api.Model.{Uuid, Direction, AccountType, Account, Entry, User, Currency}
use payment_ledger_api.Errors.{Result, ok, err, ◌>>=◌}
use payment_ledger_api.Db.{
  Db, has_transaction, insert_user, insert_currency, insert_account, insert_transaction,
  insert_entry,
}
use payment_ledger_api.Session.{fire_triggers}
use payment_ledger_api.Repositories.Transactions.Save.{
  IsStorable, insert_entry-ok, insert_transaction-ok,
}
use payment_ledger_api.Ledger.{IsLedger, IsLinked, IsDescribed, AreDistinct-append, IsLinked-append}
use payment_ledger_api.Ledger.Sums.{side_sum-append}
use payment_ledger_api.Ledger.Grows.{same_tables-IsLedger}
use payment_ledger_api.Seed.{
  Run, demo_email, cash_account_id, revenue_account_id, transaction_id, demo_transaction, demo_user,
  us_dollar, demo_account, demo_debit, demo_credit, seed_user, seed_currency, seed_account,
  seed_transaction, insert_sale, seed,
}

module _ {ℓ κ} {A : Type ℓ} {B : Type κ} where
  pub bind_ok :
      (r : Result A) (f : A → Result B) {b : B}
      → (r >>= f) ≡ ok b
      → (a : A) × (r ≡ ok a) × (f a ≡ ok b)
  bind_ok (ok a) f h = (a, refl, h)
  bind_ok (err e) f h = cc

-- What each step looks for.
pub record IsSeeded (db : Db) : Type 0 where
  pub user : any (λ u. u.email == demo_email) db.users ≡ true
  pub currency : any (λ c. c.code == "USD") db.currencies ≡ true
  pub cash : any (λ a. a.code == "1000") db.accounts ≡ true
  pub revenue : any (λ a. a.code == "4000") db.accounts ≡ true
  pub transaction : has_transaction transaction_id db ≡ true

any_last {ℓ} :
    {A : Type ℓ} (p : A → Bool) (xs : List A) (x : A) → p x ≡ true → any p (xs ++ x ∷ []) ≡ true
any_last p xs x h = ground (arith, any-append p xs (x ∷ []))

any_before {ℓ} :
    {A : Type ℓ} (p : A → Bool) (xs ys : List A) → any p xs ≡ true → any p (xs ++ ys) ≡ true
any_before p xs ys h = ground (arith, any-append p xs ys)

insert_user-ok :
    (u : User) (db : Db) {db' : Db}
    → insert_user u db ≡ ok db'
    → db' ≡ record db { users = db.users ++ u ∷ [] }
unfolding insert_user
insert_user-ok u db h = ground arith

insert_currency-ok :
    (c : Currency) (db : Db) {db' : Db}
    → insert_currency c db ≡ ok db'
    → db' ≡ record db { currencies = db.currencies ++ c ∷ [] }
unfolding insert_currency
insert_currency-ok c db h = ground arith

insert_account-ok :
    (a : Account) (db : Db) {db' : Db}
    → insert_account a db ≡ ok db'
    → db' ≡ record db { accounts = db.accounts ++ a ∷ [] }
unfolding insert_account
insert_account-ok a db h = ground arith

-- A row that is there, or is inserted.
or_insert :
    (there : Bool) (inserted : Result Db) (db : Db) {db' : Db}
    → (if there then ok db else inserted) ≡ ok db'
    → ((there ≡ true) × (db' ≡ db)) ⊎ (inserted ≡ ok db')
or_insert true inserted db h = inl (refl, ground arith)
or_insert false inserted db h = inr h

seed_user-ok :
    (run : Run) (db : Db) {db' : Db}
    → seed_user run db ≡ ok db'
    → (db' ≡ record db { users = db'.users }) × (any (λ u. u.email == demo_email) db'.users ≡ true)
unfolding seed_user
seed_user-ok run db h = elim (or_insert _ (insert_user (demo_user run) db) db h) [
  | inl (there, same) ↦ rw same (refl, there)
  | inr p ↦
      rw (insert_user-ok (demo_user run) db p)
        (refl, any_last (λ u. u.email == demo_email) db.users (demo_user run) refl)
]

seed_currency-ok :
    (run : Run) (db : Db) {db' : Db}
    → seed_currency run db ≡ ok db'
    → (db' ≡ record db { currencies = db'.currencies })
      × (any (λ c. c.code == "USD") db'.currencies ≡ true)
unfolding seed_currency
seed_currency-ok run db h = elim (or_insert _ (insert_currency (us_dollar run) db) db h) [
  | inl (there, same) ↦ rw same (refl, there)
  | inr p ↦
      rw (insert_currency-ok (us_dollar run) db p)
        (refl, any_last (λ c. c.code == "USD") db.currencies (us_dollar run) refl)
]

-- The accounts that were there still are.
seed_account-ok :
    (id : Uuid) (code name : String) (type_of : AccountType) (run : Run) (db : Db) {db' : Db}
    → seed_account id code name type_of run db ≡ ok db'
    → (db' ≡ record db { accounts = db'.accounts })
      × (any (λ a. a.code == code) db'.accounts ≡ true)
      × ((p : Account → Bool) → any p db.accounts ≡ true → any p db'.accounts ≡ true)
unfolding seed_account
seed_account-ok id code name type_of run db h =
    let a = demo_account id code name type_of run in
    elim (or_insert _ (insert_account a db) db h) [
      | inl (there, same) ↦ rw same (refl, there, λ p k. k)
      | inr p ↦ rw (insert_account-ok a db p) (
        refl,
        any_last (λ r. r.code == code) db.accounts a (equals_refl code),
        λ q k. any_before q db.accounts (a ∷ []) k,
      )
    ]

-- The transaction is there, or comes in with its two entries.
record IsNew (run : Run) (db : Db) (p : Db × List Entry) : Type 0 where
  unused : has_transaction transaction_id db ≡ false
  storable : IsStorable demo_debit × IsStorable demo_credit
  after : p.0 ≡ record db {
    transactions = db.transactions ++ demo_transaction run ∷ [];
    entries = (db.entries ++ demo_debit ∷ []) ++ demo_credit ∷ [];
  }

insert_sale-ok :
    (run : Run) (db : Db) {db' : Db}
    → insert_sale run db ≡ ok db'
    → (IsStorable demo_debit × IsStorable demo_credit)
      × (db' ≡ record db {
        transactions = db.transactions ++ demo_transaction run ∷ [];
        entries = (db.entries ++ demo_debit ∷ []) ++ demo_credit ∷ [];
      })
insert_sale-ok run db h =
    let (db₁, p, q) =
      bind_ok (insert_transaction (demo_transaction run) db)
        (λ d. insert_entry demo_debit d >>= λ e. insert_entry demo_credit e) h in
    let (db₂, r, t) = bind_ok (insert_entry demo_debit db₁) (λ e. insert_entry demo_credit e) q in
    let header = insert_transaction-ok (demo_transaction run) db p in
    let debit = insert_entry-ok demo_debit db₁ r in
    let credit = insert_entry-ok demo_credit db₂ t in
    (
      (debit.1, credit.1),
      credit.0
          ∙ ap (λ (x : Db). record x { entries = x.entries ++ demo_credit ∷ [] })
              (debit.0
                ∙ ap (λ (x : Db). record x { entries = x.entries ++ demo_debit ∷ [] }) header.0),
    )

abbrev with_rows : Db → Result (Db × List Entry)
with_rows db = ok (db, demo_debit ∷ demo_credit ∷ [])

seed_transaction-ok :
    (run : Run) (db : Db) {p : Db × List Entry}
    → seed_transaction run db ≡ ok p
    → ((has_transaction transaction_id db ≡ true) × (p.0 ≡ db)) ⊎ IsNew run db p
unfolding seed_transaction
seed_transaction-ok run db {p} h = elim (Bool-cases (has_transaction transaction_id db)) [
  | inl there ↦ inl (there, ground arith)
  | inr missing ↦
      (let new : (insert_sale run db >>= with_rows) ≡ ok p = ground arith in
        let (db₃, q, last) = bind_ok (insert_sale run db) with_rows new in
        let after = insert_sale-ok run db q in
        inr
          (record { unused = missing; storable = after.0; after = ground (arith, last) ∙ after.1 }))
]

has_last :
    (run : Run) (db : Db)
    → any (λ t. t.id == transaction_id) (db.transactions ++ demo_transaction run ∷ []) ≡ true
has_last run db = any_last (λ t. t.id == transaction_id) db.transactions (demo_transaction run) refl

-- The demo transaction balances.
IsNew-IsLedger :
    (run : Run) (db : Db) (p : Db × List Entry) → IsNew run db p → IsLedger db → IsLedger p.0
IsNew-IsLedger run db p new inv =
    let present = has_last run db in
    rw new.after (record {
      balanced = λ id. ground (
        arith,
        inv.balanced id,
        side_sum-append Direction.debit id (db.entries ++ demo_debit ∷ []) (demo_credit ∷ []),
        side_sum-append Direction.credit id (db.entries ++ demo_debit ∷ []) (demo_credit ∷ []),
        side_sum-append Direction.debit id db.entries (demo_debit ∷ []),
        side_sum-append Direction.credit id db.entries (demo_debit ∷ []),
      );
      linked =
          All-append (IsLinked _) (db.entries ++ demo_debit ∷ []) (demo_credit ∷ [])
            (All-append (IsLinked _) db.entries (demo_debit ∷ [])
              (IsLinked-append db.transactions _ db.entries inv.linked) (present, tt))
            (present, tt);
      distinct = AreDistinct-append db.transactions (demo_transaction run) inv.distinct new.unused;
      storable =
          All-append IsStorable (db.entries ++ demo_debit ∷ []) (demo_credit ∷ [])
            (All-append IsStorable db.entries (demo_debit ∷ []) inv.storable (new.storable.0, tt))
            (new.storable.1, tt);
      texts = All-append IsDescribed db.transactions _ inv.texts (refl, tt);
    })

-- What is there is not seeded again.
IsSeeded-seed : (db : Db) (run : Run) → IsSeeded db → seed run db ≡ ok db
unfolding seed seed_user seed_currency seed_account seed_transaction fire_triggers
IsSeeded-seed db run seeded =
    rw (seeded.user, seeded.currency, seeded.cash, seeded.revenue, seeded.transaction) refl

-- After the users, the currencies and the accounts.
record IsPrepared (db db' : Db) : Type 0 where
  entries : db'.entries ≡ db.entries
  transactions : db'.transactions ≡ db.transactions
  user : any (λ u. u.email == demo_email) db'.users ≡ true
  currency : any (λ c. c.code == "USD") db'.currencies ≡ true
  cash : any (λ a. a.code == "1000") db'.accounts ≡ true
  revenue : any (λ a. a.code == "4000") db'.accounts ≡ true

IsPrepared-intro :
    (run : Run) (db d₁ d₂ d₃ d₄ : Db)
    → seed_user run db ≡ ok d₁
    → seed_currency run d₁ ≡ ok d₂
    → seed_account cash_account_id "1000" "Cash" AccountType.asset run d₂ ≡ ok d₃
    → seed_account revenue_account_id "4000" "Sales Revenue" AccountType.revenue run d₃ ≡ ok d₄
    → IsPrepared db d₄
IsPrepared-intro run db d₁ d₂ d₃ d₄ p q r t =
    let u = seed_user-ok run db p in
    let c = seed_currency-ok run d₁ q in
    let a = seed_account-ok cash_account_id "1000" "Cash" AccountType.asset run d₂ r in
    let b =
      seed_account-ok revenue_account_id "4000" "Sales Revenue" AccountType.revenue run d₃ t in
    let es = λ (x : Db). x.entries in
    let ts = λ (x : Db). x.transactions in
    record {
      entries = ap es b.0 ∙ ap es a.0 ∙ ap es c.0 ∙ ap es u.0;
      transactions = ap ts b.0 ∙ ap ts a.0 ∙ ap ts c.0 ∙ ap ts u.0;
      user =
          ap (λ (x : Db). any (λ u. u.email == demo_email) x.users) b.0
          ∙ ap (λ (x : Db). any (λ u. u.email == demo_email) x.users) a.0
          ∙ ap (λ (x : Db). any (λ u. u.email == demo_email) x.users) c.0
          ∙ u.1;
      currency =
          ap (λ (x : Db). any (λ c. c.code == "USD") x.currencies) b.0
          ∙ ap (λ (x : Db). any (λ c. c.code == "USD") x.currencies) a.0
          ∙ c.1;
      cash = b.2 (λ a. a.code == "1000") a.1;
      revenue = b.1;
    }

-- After the transaction too.
seed_transaction-done :
    (run : Run) (db d₄ : Db) {p : Db × List Entry}
    → seed_transaction run d₄ ≡ ok p
    → IsPrepared db d₄
    → IsLedger db
    → IsLedger p.0 × IsSeeded p.0
seed_transaction-done run db d₄ {p} h ready inv =
    let inv₄ = same_tables-IsLedger db d₄ ready.entries ready.transactions inv in
    elim (seed_transaction-ok run d₄ h) [
      | inl (there, same) ↦ rw same (
        inv₄,
        record {
          user = ready.user;
          currency = ready.currency;
          cash = ready.cash;
          revenue = ready.revenue;
          transaction = there;
        },
      )
      | inr new ↦ (
        IsNew-IsLedger run d₄ p new inv₄,
        rw new.after (record {
          user = ready.user;
          currency = ready.currency;
          cash = ready.cash;
          revenue = ready.revenue;
          transaction = has_last run d₄;
        }),
      )
    ]

-- A run that succeeds on tables that keep the invariant of the ledger leaves tables that keep it, and that no
-- later run, with another hash, id, clock or day, changes.
pub seed-once :
    (run : Run) (db : Db) {db' : Db}
    → seed run db ≡ ok db'
    → IsLedger db
    → IsLedger db' × ((again : Run) → seed again db' ≡ ok db')
unfolding seed
seed-once run db {db'} h inv =
    let rest₅ = λ (d : Db × List Entry). fire_triggers d.1 d.0 >>= λ _. ok d.0 in
    let rest₄ = λ (d : Db). seed_transaction run d >>= rest₅ in
    let rest₃ = λ (d : Db).
      seed_account revenue_account_id "4000" "Sales Revenue" AccountType.revenue run d >>= rest₄ in
    let rest₂ =
      λ (d : Db). seed_account cash_account_id "1000" "Cash" AccountType.asset run d >>= rest₃ in
    let rest₁ = λ (d : Db). seed_currency run d >>= rest₂ in
    let (d₁, p₁, h₁) = bind_ok (seed_user run db) rest₁ h in
    let (d₂, p₂, h₂) = bind_ok (seed_currency run d₁) rest₂ h₁ in
    let (d₃, p₃, h₃) =
      bind_ok (seed_account cash_account_id "1000" "Cash" AccountType.asset run d₂) rest₃ h₂ in
    let (d₄, p₄, h₄) =
      bind_ok (seed_account revenue_account_id "4000" "Sales Revenue" AccountType.revenue run d₃)
        rest₄ h₃ in
    let (d₅, p₅, h₅) = bind_ok (seed_transaction run d₄) rest₅ h₄ in
    let (u, fired, h₆) = bind_ok (fire_triggers d₅.1 d₅.0) (λ _. ok d₅.0) h₅ in
    let done =
      seed_transaction-done run db d₄ p₅ (IsPrepared-intro run db d₁ d₂ d₃ d₄ p₁ p₂ p₃ p₄) inv in
    let same : d₅.0 ≡ db' = ground (arith, h₆) in
    (rw⁻¹ same done.0, λ again. rw⁻¹ same (IsSeeded-seed d₅.0 again done.1))
