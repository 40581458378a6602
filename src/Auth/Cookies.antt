-- ===== src/Auth/Cookies.antt =====
-- The cookies of apps/web/lib/auth/http.ts, and the session behind a request:
-- apps/web/lib/auth/context.ts. All cookies have the path "/" and are `SameSite=Lax`.
use geo_readiness.Common.{ℕ, ◌*◌, Bool, true, false, Option, none, some, []}
use geo_readiness.Common.Text.{Text, codes}
use geo_readiness.Errors.{auth_error, forbidden}
use geo_readiness.Store.{M, return, throw, ◌>>=◌}
use geo_readiness.Auth.Session.{Crypto, SessionContext, get_session}

pub record Cookie : Type 0 where
  pub name : Text
  pub value : Text
  pub http_only : Bool
  pub secure : Bool
  pub max_age : Option ℕ

abbrev pub session_cookie : Text
session_cookie = codes "geo_session"

abbrev pub csrf_cookie : Text
csrf_cookie = codes "geo_csrf"

abbrev pub set_session_cookie : Bool → Text → Cookie
set_session_cookie is_prod token = record {
  name = session_cookie;
  value = token;
  http_only = true;
  secure = is_prod;
  max_age = some (30 * 86400);
}

abbrev pub clear_session_cookie : Bool → Cookie
clear_session_cookie is_prod = record {
  name = session_cookie;
  value = [];
  http_only = true;
  secure = is_prod;
  max_age = some 0;
}

abbrev pub set_csrf_cookie : Bool → Text → Cookie
set_csrf_cookie is_prod token = record {
  name = csrf_cookie;
  value = token;
  http_only = false;
  secure = is_prod;
  max_age = none;
}

abbrev pub get_current_session : Crypto → Option Text → M (Option SessionContext)
get_current_session c token = get_session c token

abbrev or_forbidden : Option SessionContext → M SessionContext
or_forbidden none = throw (auth_error forbidden)
or_forbidden (some ctx) = return ctx

unfoldable pub require_user : Crypto → Option Text → M SessionContext
require_user c token = do ctx ← get_current_session c token; or_forbidden ctx
