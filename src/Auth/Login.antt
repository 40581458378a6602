-- ===== src/Auth/Login.antt =====
-- Logins: `login` and `logout` of apps/web/lib/auth/service.ts, and `verifyPassword` of
-- apps/web/lib/auth/password.ts. The check of a password against the dummy hash, which only takes
-- its time, is left out.
pub mod Sound
pub mod Refused
use geo_readiness.Common.{
  ℕ, Bool, true, false, Option, none, some, List, [], ◌∷◌, ◌++◌, ◌&&◌, not, if◌then◌else◌, keep,
  head?, map, is_some,
}
use geo_readiness.Common.Text.{Text, codes, text_eq, trim, lower}
use geo_readiness.Errors.{auth_error, rate_limited, invalid_credentials}
use geo_readiness.Store.{
  uuid_eq, User, Credential, Member, Db, M, return, throw, ◌>>=◌, ◌>>◌, select,
}
use geo_readiness.Auth.Session.{Crypto, create_session, revoke_session}
use geo_readiness.Auth.RateLimit.{is_login_rate_limited, record_login_attempt}

unfoldable pub normalize_email : Text → Text
normalize_email email = lower (trim email)

-- A check that throws is a mismatch.
abbrev pub is_match : Option Bool → Bool
is_match none = false
is_match (some b) = b

unfoldable pub verify_password : Crypto → Text → Text → Bool
verify_password c stored password = is_match (c.verify stored password)

pub record LoginRow : Type 0 where
  pub user_id : Text
  pub password_hash : Text
  pub is_verified : Bool
  pub organization_id : Option Text

abbrev login_row : User → Credential → Option Text → LoginRow
login_row u c org = record {
  user_id = u.id;
  password_hash = c.password_hash;
  is_verified = is_some u.email_verified_at;
  organization_id = org;
}

-- `LEFT JOIN`: a row without an organization where no member matches.
abbrev left_join : User → Credential → List Member → List LoginRow
left_join u c [] = login_row u c none ∷ []
left_join u c (m ∷ members) = map (λ o. login_row u c (some o.organization_id)) (m ∷ members)

abbrev is_owner : User → Member → Bool
is_owner u m = uuid_eq m.user_id u.id && text_eq m.role (codes "owner")

abbrev rows_of_user : User → List Member → List Credential → List LoginRow
rows_of_user u members [] = []
rows_of_user u members (c ∷ credentials) =
    left_join u c (keep (is_owner u) members) ++ rows_of_user u members credentials

abbrev rows_of_users : List Member → List Credential → List User → List LoginRow
rows_of_users members credentials [] = []
rows_of_users members credentials (u ∷ users) =
    rows_of_user u members (keep (λ c. uuid_eq c.user_id u.id) credentials)
    ++ rows_of_users members credentials users

unfoldable pub login_rows : Text → Db → List LoginRow
login_rows email db =
    rows_of_users db.members db.credentials (keep (λ u. text_eq u.email email) db.users)

pub record LoginContext : Type 0 where
  pub user_agent : Option Text
  pub ip_hash : Option Text

pub record LoginResult : Type 0 where
  pub user_id : Text
  pub organization_id : Option Text
  pub email_verified : Bool
  pub session_token : Text

abbrev pub refuse_login : Text → LoginContext → M LoginResult
refuse_login email ctx = do
  record_login_attempt email ctx.ip_hash false
  throw (auth_error invalid_credentials)

abbrev pub admit : Crypto → Text → Text → Text → LoginContext → LoginRow → M LoginResult
admit c id token email ctx row = do
  record_login_attempt email ctx.ip_hash true
  session_token ←
      create_session c id token
        (record { user_id = row.user_id; user_agent = ctx.user_agent; ip_hash = ctx.ip_hash })
  return (record {
    user_id = row.user_id;
    organization_id = row.organization_id;
    email_verified = row.is_verified;
    session_token = session_token;
  })

abbrev pub check_row :
    Crypto → Text → Text → Text → LoginContext → Text → Option LoginRow → M LoginResult
check_row c id token email ctx password none = refuse_login email ctx
check_row c id token email ctx password (some row) =
    if verify_password c row.password_hash password
    then admit c id token email ctx row
    else refuse_login email ctx

abbrev pub login_as : Crypto → Text → Text → LoginContext → Text → Text → M LoginResult
login_as c id token ctx password email = do
  limited ← is_login_rate_limited email ctx.ip_hash
  if limited then throw (auth_error rate_limited) else do
    row ← select (λ now db. head? (login_rows email db))
    check_row c id token email ctx password row

-- `id` and `token` are those of the session that it may create.
unfoldable pub login : Crypto → Text → Text → Text → Text → LoginContext → M LoginResult
login c id token raw_email password ctx =
    login_as c id token ctx password (normalize_email raw_email)

abbrev pub logout : Crypto → Option Text → M (Unit {0})
logout c token = revoke_session c token
