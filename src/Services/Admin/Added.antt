-- ===== src/Services/Admin/Added.antt =====
-- What the creations of `Admin` add, and what they refuse.
use payment_ledger_api.Common.{
  ◌≡◌, refl, ap, ◌∙◌, String, true, false, ◌||◌, none, some, List, [], ◌∷◌, ◌++◌, any, arith, ◌==◌,
  nat_eq, string_eq, inl, inr, Option-cases,
}
use payment_ledger_api.Model.{Uuid, Account, Currency, User, UserRole, Snapshot}
use payment_ledger_api.Errors.{ok, err, Result-cases, conflict_error, duplicate_email}
use payment_ledger_api.Db.{Db, insert_account}
use payment_ledger_api.Session.{Session, NewAuditLog, draw}
use payment_ledger_api.Repositories.Accounts.{NewAccount, save as save_account}
use payment_ledger_api.Repositories.Currencies.{find_by_code}
use payment_ledger_api.Repositories.Users.{find_by_email}
use payment_ledger_api.Repositories.Audit.{log}
use payment_ledger_api.Services.Admin.{create_account, create_user, account_snapshot}

abbrev pub creation : Uuid → String → Uuid → Snapshot → NewAuditLog
creation user_id entity_type id after = record {
  user_id = user_id;
  entity_type = entity_type;
  entity_id = id;
  action = "create";
  before_value = none;
  after_value = some after;
}

-- An account that was created names a currency of the table, and has an id and a code that no account had; it
-- is the last row of its table, active and with the code, name, type and currency that were asked for, and no other table changes; the one
-- audit log that is added records it.
pub record AccountAdded (payload : NewAccount) (user_id : Uuid) (s : Session) (a : Account)
    (s' : Session) : Type 0 where
  pub currency : Currency
  pub known : find_by_code payload.currency s.db ≡ ok (some currency)
  pub new_id : any (λ r. r.id == a.id) s.db.accounts ≡ false
  pub new_code : any (λ r. r.code == payload.code) s.db.accounts ≡ false
  pub after : s'.db ≡ record s.db { accounts = s.db.accounts ++ a ∷ [] }
  pub as_asked :
      (a.code ≡ payload.code)
      × (a.name ≡ payload.name)
      × (a.account_type ≡ payload.account_type)
      × (a.currency ≡ payload.currency)
      × (a.is_active ≡ true)
  pub logged : s'.added ≡ s.added ++ creation user_id "account" a.id (account_snapshot a) ∷ []

any-or :
    (id : Uuid) (code name : String) (rows : List Account)
    → any (λ r. r.id == id || r.code == code || r.name == name) rows ≡ false
    → (any (λ r. r.id == id) rows ≡ false) × (any (λ r. r.code == code) rows ≡ false)
any-or id code name [] h = (refl, refl)
any-or id code name (r ∷ rows) h = ground (arith, any-or id code name rows)

insert_account-ok :
    (a : Account) (db : Db) {db' : Db}
    → insert_account a db ≡ ok db'
    → (db' ≡ record db { accounts = db.accounts ++ a ∷ [] })
      × (any (λ r. r.id == a.id) db.accounts ≡ false)
      × (any (λ r. r.code == a.code) db.accounts ≡ false)
unfolding insert_account
insert_account-ok a db h = ground (arith, any-or a.id a.code a.name db.accounts)

abbrev account_row : NewAccount → Session → Account
account_row payload s = record {
  id = s.uuid4 s.draws;
  code = payload.code;
  name = payload.name;
  account_type = payload.account_type;
  currency = payload.currency;
  is_active = true;
  created_at = s.started;
  updated_at = s.started;
}

-- An account that was created names a currency of the table, and has an id and a code that no account
-- had; it is the last row of its table, active and with the code, name, type and currency that were
-- asked for, and no other table changes; the one audit log that is added records it.
pub create_account-AccountAdded :
    (payload : NewAccount) (user_id : Uuid) (s : Session) {a : Account} {s' : Session}
    → create_account payload user_id s ≡ (ok a, s')
    → AccountAdded payload user_id s a s'
unfolding create_account save_account draw log
create_account-AccountAdded payload user_id s {a} {s'} h =
    elim (Result-cases (find_by_code payload.currency s.db)) [
      | inr (x, p) ↦ ground arith
      | inl (found, p) ↦ elim (Option-cases found) [
        | inl missing ↦ ground arith
        | inr (c, q) ↦ elim (Result-cases (insert_account (account_row payload s) s.db)) [
          | inr (x, r) ↦ ground arith
          | inl (db', r) ↦
              (let done = insert_account-ok (account_row payload s) s.db r in
                let row : a ≡ account_row payload s = ground arith in
                record {
                  currency = c;
                  known = p ∙ ap (λ o. ok o) q;
                  new_id = rw row done.1;
                  new_code = done.2;
                  after = ground arith;
                  as_asked = rw row (refl, refl, refl, refl, refl);
                  logged = ground arith;
                })
        ]
      ]
    ]

-- A user whose email is taken is refused by a conflict, and nothing is changed.
pub create_user-conflict :
    (get_password_hash : String → String) (email password : String) (role : UserRole) (s : Session)
    {u : User}
    → find_by_email email s.db ≡ ok (some u)
    → create_user get_password_hash email password role s
      ≡ (err (conflict_error duplicate_email), s)
unfolding create_user
create_user-conflict get_password_hash email password role s h = ground arith
