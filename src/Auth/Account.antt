-- ===== src/Auth/Account.antt =====
-- Accounts: `registerUser` and `verifyEmail` of apps/web/lib/auth/service.ts, and `hashPassword` of
-- apps/web/lib/auth/password.ts. An INSERT that meets a mail address that is there reports it, and
-- the transaction ends with the error.
pub mod Verified
use geo_readiness.Common.{
  ℕ, ◌+◌, ◌*◌, Bool, true, false, Option, none, some, List, [], ◌∷◌, ◌++◌, ◌&&◌, not, if◌then◌else◌,
  any, keep, head?, map, is_some, ltb, length,
}
use geo_readiness.Common.Text.{Text, codes, text_eq}
use geo_readiness.Errors.{auth_error, email_taken, invalid_token, weak_password}
use geo_readiness.Store.{
  uuid_eq, User, Credential, Member, Organization, VerificationToken, Db, M, return, throw, ◌>>=◌,
  ◌>>◌, query, execute, with_transaction,
}
use geo_readiness.Auth.Session.{Crypto}
use geo_readiness.Auth.Login.{normalize_email}

abbrev pub verification_ttl_ms : ℕ
verification_ttl_ms = 24 * 3600000

abbrev pub min_password_length : ℕ
min_password_length = 10

unfoldable pub hash_password : Crypto → Text → M Text
hash_password c password =
    if ltb (length password) min_password_length
    then throw weak_password
    else return (c.hash_password password)

pub record RegisterResult : Type 0 where
  pub user_id : Text
  pub organization_id : Text
  pub verification_token : Text

-- Ids and the token that a registration makes.
pub record Made : Type 0 where
  pub user : Text
  pub organization : Text
  pub token : Text

abbrev pub is_taken : Text → Db → Bool
is_taken email db = any (λ u. text_eq u.email email) db.users

-- Whether the row went in.
unfoldable pub insert_pending : Text → Text → M Bool
insert_pending id email = query (λ now db. if is_taken email db then (false, db) else (
  true,
  record db {
    users =
        record { id = id; email = email; status = codes "pending"; email_verified_at = none }
        ∷ db.users;
  },
))

abbrev pub insert_credential : Text → Text → ℕ → Db → Db
insert_credential user hash now db = record db {
  credentials = record { user_id = user; password_hash = hash } ∷ db.credentials;
}

abbrev pub insert_organization : Text → Text → Text → ℕ → Db → Db
insert_organization id email user now db = record db {
  organizations =
      record {
        id = id;
        name = email ++ codes "'s organization";
        owner_user_id = user;
        created_at = now;
      }
      ∷ db.organizations;
}

abbrev pub insert_owner : Text → Text → ℕ → Db → Db
insert_owner org user now db = record db {
  members = record { organization_id = org; user_id = user; role = codes "owner" } ∷ db.members;
}

abbrev pub insert_token : Text → Text → ℕ → Db → Db
insert_token user hash now db = record db {
  verification_tokens =
      record {
        user_id = user;
        token_hash = hash;
        expires_at = now + verification_ttl_ms;
        consumed_at = none;
      }
      ∷ db.verification_tokens;
}

abbrev pub register : Crypto → Made → Text → Text → M RegisterResult
register c made email password_hash = do
  inserted ← insert_pending made.user email
  if not inserted then throw (auth_error email_taken) else do
    execute (insert_credential made.user password_hash)
    execute (insert_organization made.organization email made.user)
    execute (insert_owner made.organization made.user)
    execute (insert_token made.user (c.hash_token made.token))
    return (record {
      user_id = made.user;
      organization_id = made.organization;
      verification_token = made.token;
    })

unfoldable pub register_user : Crypto → Made → Text → Text → M RegisterResult
register_user c made raw_email password = do
  password_hash ← hash_password c password
  with_transaction (register c made (normalize_email raw_email) password_hash)

abbrev pub is_usable : Text → ℕ → VerificationToken → Bool
is_usable hash now t =
    text_eq t.token_hash hash && not (is_some t.consumed_at) && ltb now t.expires_at

abbrev pub consume_if : Text → ℕ → VerificationToken → VerificationToken
consume_if hash now t = if is_usable hash now t then record t { consumed_at = some now } else t

-- `UPDATE … RETURNING`
unfoldable pub consume_token : Text → M (Option VerificationToken)
consume_token hash = query (λ now db. (
  head? (keep (is_usable hash now) db.verification_tokens),
  record db { verification_tokens = map (consume_if hash now) db.verification_tokens },
))

abbrev pub activate_if : Text → ℕ → User → User
activate_if id now u =
    if uuid_eq u.id id
    then record u { email_verified_at = some now; status = codes "active" }
    else u

abbrev pub activate : Option VerificationToken → M Text
activate none = throw (auth_error invalid_token)
activate (some t) = do
  execute (λ now db. record db { users = map (activate_if t.user_id now) db.users })
  return t.user_id

abbrev pub verify_token : Text → M Text
verify_token hash = do row ← consume_token hash; activate row

unfoldable pub verify_email : Crypto → Text → M Text
verify_email c token = with_transaction (verify_token (c.hash_token token))
