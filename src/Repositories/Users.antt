-- ===== src/Repositories/Users.antt =====
-- app/repositories/user_repository.py
use payment_ledger_api.Common.{String, Option, true, filter, ◌==◌, string_eq}
use payment_ledger_api.Model.{UserRole, User}
use payment_ledger_api.Errors.{Result, err, integrity_error, conflict_error, duplicate_email}
use payment_ledger_api.Db.{Db, insert_user}
use payment_ledger_api.Session.{Action, pure, get, execute, draw, ◌>>=◌, ◌>>◌}
use payment_ledger_api.Repositories.{scalar_one_or_none}

-- A `User` object before its flush.
pub record NewUser : Type 0 where
  pub email : String
  pub hashed_password : String
  pub role : UserRole

-- `except IntegrityError`
abbrev pub email_conflict : Result Db → Result Db
email_conflict (err integrity_error) = err (conflict_error duplicate_email)
email_conflict r = r

unfoldable pub save : NewUser → Action User
save new = do
  id ← draw
  at ← get (λ s. s.started)
  let row : User = record {
    id = id;
    email = new.email;
    hashed_password = new.hashed_password;
    role = new.role;
    is_active = true;
    created_at = at;
  }
  execute (λ db. email_conflict (insert_user row db))
  pure row

unfoldable pub find_by_email : String → Db → Result (Option User)
find_by_email email db = scalar_one_or_none (filter (λ u. u.email == email) db.users)
