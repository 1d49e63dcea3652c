-- ===== src/Auth.antt =====
-- app/core/deps.py, `create_access_token` of app/core/security.py and `login` of
-- app/api/v1/routes/auth.py. PyJWT, bcrypt and the text of a UUID are the parameter `Libraries`.
use payment_ledger_api.Common.{
  ◌&&◌, ℕ, ◌+◌, ◌*◌, ◌/◌, ltb, String, Bool, true, not, ◌||◌, Option, none, some, ◌≡◌, refl, ap,
  ◌∙◌, ◌==◌, string_eq, if◌then◌else◌, arith, Option-cases, Bool-cases, ◌⊎◌, inl, inr,
}
use payment_ledger_api.Model.{Uuid, Timestamp, UserRole, role_eq, role_value, User}
use payment_ledger_api.Errors.{
  Error, Result, ok, err, http_exception, bad_credentials, role_required, ◌>>=◌, Result-cases,
}
use payment_ledger_api.Db.{Db}
use payment_ledger_api.Repositories.Users.{find_by_email}

-- What a token says of its bearer; `Text` is the text of a user id.
pub record Claims (Text : Type 0) : Type 0 where
  pub sub : Option Text
  pub role : Option String
  pub is_active : Option Bool

-- PyJWT keeps the time of expiry in whole seconds.
abbrev pub to_seconds : Timestamp → Timestamp
to_seconds exp = exp / 1000000 * 1000000

-- `decode` fails on a token that is not signed with the key or has expired: a token that `encode`
-- made is accepted until that second begins.
pub record Libraries (Token Text : Type 0) : Type 0 where
  pub encode : Claims Text → (exp : Timestamp) → Token
  pub decode : (now : Timestamp) → Token → Option (Claims Text)
  pub uuid_text : Uuid → Text
  pub parse_uuid : Text → Option Uuid
  pub checkpw : String → String → Bool
  pub decode-encode :
      (c : Claims Text) (exp now : Timestamp)
      → decode now (encode c exp) ≡ (if ltb now (to_seconds exp) then some c else none)
  pub parse-text : (id : Uuid) → parse_uuid (uuid_text id) ≡ some id

pub record TokenUser : Type 0 where
  pub id : Uuid
  pub role : UserRole
  pub is_active : Bool

abbrev pub credentials_exception : Error
credentials_exception = http_exception 401 bad_credentials

-- `UserRole(role_str)`
abbrev pub role_of : String → Option UserRole
role_of text =
    if text == "admin"
    then some UserRole.admin
    else if text == "auditor"
    then some UserRole.auditor
    else none

abbrev or_unauthorized {ℓ} : {A : Type ℓ} → Option A → Result A
or_unauthorized none = err credentials_exception
or_unauthorized (some a) = ok a

abbrev active_only : TokenUser → Result TokenUser
active_only u = if not u.is_active then err credentials_exception else ok u

unfoldable pub require_admin : TokenUser → Result TokenUser
require_admin user =
    if not (user.role == UserRole.admin)
    then err (http_exception 403 (role_required "Admin role required"))
    else ok user

unfoldable pub require_auditor_or_admin : TokenUser → Result TokenUser
require_auditor_or_admin user =
    if not (user.role == UserRole.admin || user.role == UserRole.auditor)
    then err (http_exception 403 (role_required "Auditor or admin role required"))
    else ok user

-- Whom the roles let pass: an admin both, an auditor the second only.
abbrev pub IsGraded : TokenUser → Type 0
IsGraded u =
    (require_auditor_or_admin u ≡ ok u)
    × ((u.role ≡ UserRole.admin) × (require_admin u ≡ ok u)
        ⊎ (u.role ≡ UserRole.auditor)
          × (require_admin u ≡ err (http_exception 403 (role_required "Admin role required"))))

role-IsGraded :
    (id : Uuid) (r : UserRole) (active : Bool)
    → IsGraded (record { id = id; role = r; is_active = active })
unfolding require_admin require_auditor_or_admin
role-IsGraded id UserRole.admin active = (refl, inl (refl, refl))
role-IsGraded id UserRole.auditor active = (refl, inr (refl, refl))

-- Every user that a token can stand for passes `require_auditor_or_admin`, and passes
-- `require_admin` if the role is admin, and is refused by 403 there if it is auditor; who passes is
-- returned unchanged.
pub require_admin-IsGraded : (u : TokenUser) → IsGraded u
require_admin-IsGraded u = role-IsGraded u.id u.role u.is_active

module _ {Token Text : Type 0} (lib : Libraries Token Text) where
  unfoldable pub get_current_user : Timestamp → Token → Result TokenUser
  get_current_user now token = do
    payload ← or_unauthorized (lib.decode now token)
    sub ← or_unauthorized payload.sub
    role_str ← or_unauthorized payload.role
    is_active ← or_unauthorized payload.is_active
    user_id ← or_unauthorized (lib.parse_uuid sub)
    role ← or_unauthorized (role_of role_str)
    active_only (record { id = user_id; role = role; is_active = is_active })

  -- `create_access_token`, for a lifetime of so many minutes.
  unfoldable pub create_access_token : (minutes : ℕ) → Timestamp → Claims Text → Token
  create_access_token minutes now claims = lib.encode claims (now + minutes * 60000000)

  abbrev pub claims_of : User → Claims Text
  claims_of u = record {
    sub = some (lib.uuid_text u.id);
    role = some (role_value u.role);
    is_active = some u.is_active;
  }

  abbrev pub checked_user : String → Option User → Result User
  checked_user password none = err credentials_exception
  checked_user password (some u) =
      if not (lib.checkpw password u.hashed_password) then err credentials_exception else ok u

  unfoldable pub login :
      (minutes : ℕ) → Timestamp → (username password : String) → Db → Result Token
  unfolding create_access_token
  login minutes now username password db = do
    found ← find_by_email username db
    user ← checked_user password found
    ok (create_access_token minutes now (claims_of user))

  role_of-value : (r : UserRole) → role_of (role_value r) ≡ some r
  role_of-value UserRole.admin = refl
  role_of-value UserRole.auditor = refl

  -- A token of a login, at any time after: the email of that login has a user whose password was
  -- verified. Until the second of its expiry, a user who is active is the bearer, with the user's id
  -- and role; from then on, and for a user who is not active, the token is refused by 401.
  pub login-get_current_user :
      (minutes : ℕ) (now later : Timestamp) (username password : String) (db : Db) {token : Token}
      → login minutes now username password db ≡ ok token
      → (u : User) × (find_by_email username db ≡ ok (some u))
        × (lib.checkpw password u.hashed_password ≡ true)
        × (get_current_user later token ≡ (
            if ltb later (to_seconds (now + minutes * 60000000)) && u.is_active
            then ok (record { id = u.id; role = u.role; is_active = true })
            else err credentials_exception))
  unfolding login get_current_user
  login-get_current_user minutes now later username password db {token} h =
      elim (Result-cases (find_by_email username db)) [
        | inr (x, p) ↦ ground arith
        | inl (found, p) ↦ elim (Option-cases found) [
          | inl nobody ↦ ground arith
          | inr (u, q) ↦ elim (Bool-cases (lib.checkpw password u.hashed_password)) [
            | inr wrong ↦ ground arith
            | inl right ↦
                (let claims = claims_of u in
                  let same : token ≡ lib.encode claims (now + minutes * 60000000) = ground arith in
                  (u, p ∙ ap (λ o. ok o) q, right, accepted u same))
          ]
        ]
      ]
    where
      accepted :
          (u : User)
          → token ≡ lib.encode (claims_of u) (now + minutes * 60000000)
          → get_current_user later token ≡ (
              if ltb later (to_seconds (now + minutes * 60000000)) && u.is_active
              then ok (record { id = u.id; role = u.role; is_active = true })
              else err credentials_exception)
      accepted u same =
          let exp = now + minutes * 60000000 in
          let decoded = lib.decode-encode (claims_of u) exp later in
          elim (Bool-cases (ltb later (to_seconds exp))) [
            | inl soon ↦ ground (arith, decoded, lib.parse-text u.id, role_of-value u.role)
            | inr late ↦ ground (arith, decoded)
          ]
