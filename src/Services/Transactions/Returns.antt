-- ===== src/Services/Transactions/Returns.antt =====
-- When `create_transaction` returns a transaction.
use payment_ledger_api.Common.{
  ℕ, ◌<◌, ◌≡◌, refl, ap, sym, ◌∙◌, true, some, List, [], ◌∷◌, ◌++◌, any, All, arith, inl, inr, ◌==◌,
  nat_eq, string_eq, nat_beq_refl,
}
use payment_ledger_api.Money.{Decimal, bigint_limit, convert_amount_usd}
use payment_ledger_api.Model.{Uuid, Account, Currency}
use payment_ledger_api.Errors.{ok}
use payment_ledger_api.Schemas.{EntryCreate, TransactionCreate}
use payment_ledger_api.Db.{Db, is_text}
use payment_ledger_api.Session.{Session}
use payment_ledger_api.Repositories.Audit.{log}
use payment_ledger_api.Repositories.Transactions.{NewEntry, Loaded, save}
use payment_ledger_api.Repositories.Transactions.Returns.{IsInsertable, IsFresh, save-returns}
use payment_ledger_api.Services.Transactions.{
  create_transaction, resolve_usd_conversion_rate, converted_amounts, new_entry, new_entries,
}
use payment_ledger_api.Services.Transactions.Rules.{check_payload}
use payment_ledger_api.Services.Transactions.Create.{posted_header, created_log}
use payment_ledger_api.Services.Transactions.Postable.{IsAccountIn, IsAccountFor, IsPostable}
use payment_ledger_api.Services.Transactions.Complete.{AreDistinctAccounts, check_payload_iff}

-- The foreign key of the accounts.
abbrev pub AreKnownCurrencies : Db → Type 0
AreKnownCurrencies db = All (λ a. any (λ c. c.code == a.currency) db.currencies ≡ true) db.accounts

-- The amount of an entry is positive, and fits its column before and after the conversion.
pub record IsPayable (rate : Decimal) (e : EntryCreate) : Type 0 where
  pub positive : 0 < e.amount
  pub amount_fits : e.amount < bigint_limit
  pub usd : ℕ
  pub converts : convert_amount_usd e.amount rate ≡ some usd
  pub usd_fits : usd < bigint_limit

has-stored :
    (a : Account) (accounts : List Account)
    → IsAccountIn a accounts
    → any (λ b. b.id == a.id) accounts ≡ true
has-stored a [] m = absurd m
has-stored a (b ∷ rest) (inl same) = rw (← same, nat_beq_refl a.id) refl
has-stored a (b ∷ rest) (inr m) = ground (arith, has-stored a rest m)

known-stored :
    (a : Account) (accounts : List Account) (currencies : List Currency)
    → IsAccountIn a accounts
    → All (λ b. any (λ c. c.code == b.currency) currencies ≡ true) accounts
    → any (λ c. c.code == a.currency) currencies ≡ true
known-stored a [] currencies m h = absurd m
known-stored a (b ∷ rest) currencies (inl same) h = rw same h.0
known-stored a (b ∷ rest) currencies (inr m) h = known-stored a rest currencies m h.1

IsInsertable-entry :
    (rate : Decimal) (e : EntryCreate) (db : Db) (p : IsPayable rate e)
    → AreKnownCurrencies db
    → IsAccountFor db.accounts e
    → IsInsertable db.accounts db.currencies (new_entry e p.usd)
IsInsertable-entry rate e db p known f = record {
  positive = p.positive;
  amount_fits = p.amount_fits;
  usd_fits = p.usd_fits;
  account =
      ap (λ i. any (λ b. b.id == i) db.accounts) (sym f.same_id)
      ∙ has-stored f.account db.accounts f.stored;
  currency =
      ap (λ code. any (λ c. c.code == code) db.currencies) (sym f.same_currency)
      ∙ known-stored f.account db.accounts db.currencies f.stored known;
}

record Prepared (rate : Decimal) (db : Db) (es : List EntryCreate) : Type 0 where
  usds : List ℕ
  news : List NewEntry
  converted : converted_amounts es rate ≡ ok usds
  zipped : new_entries es usds ≡ ok news
  insertable : All (IsInsertable db.accounts db.currencies) news

prepare :
    (rate : Decimal) (db : Db) (es : List EntryCreate)
    → AreKnownCurrencies db
    → All (IsAccountFor db.accounts) es
    → All (IsPayable rate) es
    → Prepared rate db es
unfolding converted_amounts new_entries
prepare rate db [] known f p = record {
  usds = [];
  news = [];
  converted = refl;
  zipped = refl;
  insertable = tt;
}
prepare rate db (e ∷ es) known f p =
    let rest = prepare rate db es known f.1 p.1 in
    record {
      usds = p.0.usd ∷ rest.usds;
      news = new_entry e p.0.usd ∷ rest.news;
      converted = ground (arith, p.0.converts, rest.converted);
      zipped = ground (arith, rest.zipped);
      insertable = (IsInsertable-entry rate e db p.0 known f.0, rest.insertable);
    }

create_of :
    (payload : TransactionCreate) (user_id : Uuid) (s : Session) {rate : Decimal} {usds : List ℕ}
    {news : List NewEntry} {loaded : Loaded} {s₁ : Session}
    → check_payload payload s.db ≡ ok tt
    → resolve_usd_conversion_rate payload.currency_code payload.transaction_date s ≡ (ok rate, s)
    → converted_amounts payload.entries rate ≡ ok usds
    → new_entries payload.entries usds ≡ ok news
    → save (posted_header payload s) news s ≡ (ok loaded, s₁)
    → create_transaction payload user_id s
      ≡ (ok loaded, record s₁ { added = s₁.added ++ created_log user_id loaded ∷ [] })
unfolding create_transaction log
create_of payload user_id s checked resolved converted zipped saved = ground arith

-- For a payload that may be posted, `create_transaction` returns a transaction, which get_db has still
-- to commit: in tables without two accounts of one id, whose accounts have currencies of their table,
-- under fresh ids, with a description without U+0000, a rate for the transaction, and amounts that are
-- positive and fit their columns.
pub create_transaction-returns :
    (payload : TransactionCreate) (user_id : Uuid) (s : Session) (rate : Decimal)
    → AreDistinctAccounts s.db.accounts
    → AreKnownCurrencies s.db
    → IsFresh s.uuid4 s.draws s.db
    → is_text payload.description ≡ true
    → IsPostable payload s.db
    → resolve_usd_conversion_rate payload.currency_code payload.transaction_date s ≡ (ok rate, s)
    → All (IsPayable rate) payload.entries
    → (loaded : Loaded) × (s' : Session) × (create_transaction payload user_id s ≡ (ok loaded, s'))
create_transaction-returns payload user_id s rate distinct known fresh text post resolved payable =
    let checked = (check_payload_iff payload s.db distinct).1 post in
    let ready = prepare rate s.db payload.entries known post.accounts payable in
    let (loaded, s₁, saved) =
      save-returns (posted_header payload s) ready.news s text fresh ready.insertable in
    (
      loaded,
      record s₁ { added = s₁.added ++ created_log user_id loaded ∷ [] },
      create_of payload user_id s checked resolved ready.converted ready.zipped saved,
    )
