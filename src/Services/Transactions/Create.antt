-- ===== src/Services/Transactions/Create.antt =====
-- What a `create_transaction` that returned has checked and done.
use mathlib.Core.Path.{subst}
use payment_ledger_api.Common.{
  sym, String, ℕ, ◌≡◌, ap, ◌∙◌, some, none, List, [], ◌∷◌, ◌++◌, arith, inl, inr,
}
use payment_ledger_api.Money.{Decimal}
use payment_ledger_api.Model.{Uuid, Date, TransactionStatus}
use payment_ledger_api.Errors.{ok, Result-cases}
use payment_ledger_api.Schemas.{TransactionCreate}
use payment_ledger_api.Session.{Session, NewAuditLog, Action, pure, ◌>>=◌, ◌>>◌}
use payment_ledger_api.Session.Laws.{bind_ok}
use payment_ledger_api.Repositories.Transactions.{NewTransaction, NewEntry, Loaded, save}
use payment_ledger_api.Repositories.Transactions.Save.{Saved, save-ok}
use payment_ledger_api.Repositories.Audit.{log}
use payment_ledger_api.Services.Transactions.{
  resolve_usd_conversion_rate, converted_amounts, new_entries, created_snapshot, create_transaction,
}
use payment_ledger_api.Services.Transactions.Rules.{check_payload}

-- The header that is saved.
abbrev pub posted_header : TransactionCreate → Session → NewTransaction
posted_header payload s = record {
  description = payload.description;
  transaction_date = payload.transaction_date;
  status = TransactionStatus.posted;
  posted_at = some s.now;
  metadata = none;
}

abbrev pub created_log : Uuid → Loaded → NewAuditLog
created_log user_id t = record {
  user_id = user_id;
  entity_type = "transaction";
  entity_id = t.id;
  action = "create";
  before_value = none;
  after_value = some (created_snapshot t);
}

pub record Created (payload : TransactionCreate) (user_id : Uuid) (s : Session) (loaded : Loaded)
    (s' : Session) : Type 0 where
  pub checked : check_payload payload s.db ≡ ok tt
  pub rate : Decimal
  pub resolved :
      resolve_usd_conversion_rate payload.currency_code payload.transaction_date s ≡ (ok rate, s)
  pub converted : List ℕ
  pub conversion : converted_amounts payload.entries rate ≡ ok converted
  pub news : List NewEntry
  pub zipped : new_entries payload.entries converted ≡ ok news
  pub middle : Session
  pub saved : Saved (posted_header payload s) news s loaded middle
  pub logged : s' ≡ record middle { added = middle.added ++ created_log user_id loaded ∷ [] }

-- The lookups read the session and leave it alone.
resolve-session :
    (code : String) (on : Date) (s : Session) → (resolve_usd_conversion_rate code on s).1 ≡ s
unfolding resolve_usd_conversion_rate
resolve-session code on s = ground arith

abbrev log_created : Uuid → Loaded → Action Loaded
log_created user_id loaded = do
  log user_id "transaction" loaded.id "create" none (some (created_snapshot loaded))
  pure loaded

abbrev save_and_log : TransactionCreate → Uuid → List NewEntry → Action Loaded
save_and_log payload user_id news s =
    (save (posted_header payload s) news >>= log_created user_id) s

log_created-ok :
    (user_id : Uuid) (t : Loaded) (s : Session) {loaded : Loaded} {s' : Session}
    → log_created user_id t s ≡ (ok loaded, s')
    → (loaded ≡ t) × (s' ≡ record s { added = s.added ++ created_log user_id t ∷ [] })
unfolding log
log_created-ok user_id t s h = ground arith

module _ (payload : TransactionCreate) (user_id : Uuid) (news : List NewEntry) (s : Session) where
  save_and_log-from :
      (t : Loaded) (s₁ : Session) {loaded : Loaded} {s' : Session}
      → save (posted_header payload s) news s ≡ (ok t, s₁)
      → log_created user_id t s₁ ≡ (ok loaded, s')
      → Saved (posted_header payload s) news s loaded s₁
        × (s' ≡ record s₁ { added = s₁.added ++ created_log user_id loaded ∷ [] })
  save_and_log-from t s₁ q r =
      let done = log_created-ok user_id t s₁ r in
      (
        subst (λ l. Saved (posted_header payload s) news s l s₁) (sym done.0)
            (save-ok (posted_header payload s) news s q),
        done.1
            ∙ ap (λ l. record s₁ { added = s₁.added ++ created_log user_id l ∷ [] }) (sym done.0),
      )

  save_and_log-ok :
      {loaded : Loaded} {s' : Session}
      → save_and_log payload user_id news s ≡ (ok loaded, s')
      → (s₁ : Session) × Saved (posted_header payload s) news s loaded s₁
        × (s' ≡ record s₁ { added = s₁.added ++ created_log user_id loaded ∷ [] })
  save_and_log-ok h =
      let (t, s₁, q, r) = bind_ok (save (posted_header payload s) news) (log_created user_id) s h in
      let done = save_and_log-from t s₁ q r in (s₁, done.0, done.1)

pub create_transaction-ok :
    (payload : TransactionCreate) (user_id : Uuid) (s : Session) {loaded : Loaded} {s' : Session}
    → create_transaction payload user_id s ≡ (ok loaded, s')
    → Created payload user_id s loaded s'
unfolding create_transaction
create_transaction-ok payload user_id s {loaded} {s'} h =
    let state = resolve-session payload.currency_code payload.transaction_date s in
    elim (Result-cases (check_payload payload s.db)) [
      | inr (x, p) ↦ ground arith
      | inl (_, checked) ↦
          elim (Result-cases
            (resolve_usd_conversion_rate payload.currency_code payload.transaction_date s).0) [
              | inr (x, p) ↦ ground arith
              | inl (rate, p) ↦ elim (Result-cases (converted_amounts payload.entries rate)) [
                | inr (x, q) ↦ ground arith
                | inl (converted, conversion) ↦
                    elim (Result-cases (new_entries payload.entries converted)) [
                      | inr (x, q) ↦ ground arith
                      | inl (news, zipped) ↦
                          (let h' : save_and_log payload user_id news s ≡ (ok loaded, s') =
                              ground arith in
                            let done = save_and_log-ok payload user_id news s h' in
                            record {
                              checked = checked;
                              rate = rate;
                              resolved = λ i. (p i, state i);
                              converted = converted;
                              conversion = conversion;
                              news = news;
                              zipped = zipped;
                              middle = done.0;
                              saved = done.1;
                              logged = done.2;
                            })
                    ]
              ]
            ]
    ]
