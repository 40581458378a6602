-- ===== src/Auth/Session.antt =====
-- Sessions: apps/web/lib/auth/session.ts. The clock of the server and that of the data base are one;
-- times are milliseconds.
pub mod Life
use geo_readiness.Common.{
  ℕ, ◌+◌, ◌*◌, Bool, true, false, Option, none, some, List, [], ◌∷◌, ◌&&◌, not, ltb, if◌then◌else◌,
  any, keep, head?, map, is_some,
}
use geo_readiness.Common.Text.{Text, text_eq, is_empty}
use geo_readiness.Store.{uuid_eq, LoginSession, Db, M, return, ◌>>=◌, ◌>>◌, query, execute}

-- `hashToken`, and `hash` and `verify` of the password library, of which the last may throw.
pub record Crypto : Type 0 where
  pub hash_token : Text → Text
  pub hash_password : Text → Text
  pub verify : Text → Text → Option Bool

abbrev pub session_ttl_ms : ℕ
session_ttl_ms = 30 * 86400000

pub record SessionContext : Type 0 where
  pub session_id : Text
  pub user_id : Text

pub record CreateSessionInput : Type 0 where
  pub user_id : Text
  pub user_agent : Option Text
  pub ip_hash : Option Text

abbrev pub session_row : Crypto → Text → Text → CreateSessionInput → ℕ → LoginSession
session_row c id token input now = record {
  id = id;
  user_id = input.user_id;
  token_hash = c.hash_token token;
  expires_at = now + session_ttl_ms;
  revoked_at = none;
  last_used_at = none;
  user_agent = input.user_agent;
  ip_hash = input.ip_hash;
}

unfoldable pub create_session : Crypto → Text → Text → CreateSessionInput → M Text
create_session c id token input = do
  execute (λ now db. record db { sessions = session_row c id token input now ∷ db.sessions })
  return token

abbrev pub is_live : Text → ℕ → LoginSession → Bool
is_live hash now s = text_eq s.token_hash hash && not (is_some s.revoked_at) && ltb now s.expires_at

abbrev touch : Text → ℕ → LoginSession → LoginSession
touch hash now s = if is_live hash now s then record s { last_used_at = some now } else s

abbrev pub context_of : LoginSession → SessionContext
context_of s = record { session_id = s.id; user_id = s.user_id }

-- `UPDATE … RETURNING`
abbrev use_session : Text → ℕ → Db → Option SessionContext × Db
use_session hash now db = (
  head? (map context_of (keep (is_live hash now) db.sessions)),
  record db { sessions = map (touch hash now) db.sessions },
)

abbrev pub present : Option Text → Option Text
present none = none
present (some t) = if is_empty t then none else some t

abbrev pub look_up : Crypto → Option Text → M (Option SessionContext)
look_up c none = return none
look_up c (some token) = query (use_session (c.hash_token token))

unfoldable pub get_session : Crypto → Option Text → M (Option SessionContext)
get_session c token = look_up c (present token)

abbrev pub revoke_if : (LoginSession → Bool) → ℕ → LoginSession → LoginSession
revoke_if p now s =
    if p s && not (is_some s.revoked_at) then record s { revoked_at = some now } else s

abbrev pub revoke_where : (LoginSession → Bool) → ℕ → Db → Db
revoke_where p now db = record db { sessions = map (revoke_if p now) db.sessions }

abbrev revoke_token : Crypto → Option Text → M (Unit {0})
revoke_token c none = return tt
revoke_token c (some token) =
    execute (revoke_where (λ s. text_eq s.token_hash (c.hash_token token)))

unfoldable pub revoke_session : Crypto → Option Text → M (Unit {0})
revoke_session c token = revoke_token c (present token)

unfoldable pub revoke_all_user_sessions : Text → M (Unit {0})
revoke_all_user_sessions user_id = execute (revoke_where (λ s. uuid_eq s.user_id user_id))
