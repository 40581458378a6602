-- ===== src/Api/Accounts.antt =====
-- The handlers under apps/web/app/api/auth: login, register, logout and verify-email. An answer comes
-- with the cookie that it sets.
pub mod Admission
mod Tests
use geo_readiness.Common.{Bool, true, false, Option, none, some, not, if◌then◌else◌, ◌≡◌}
use geo_readiness.Common.Text.{Text, codes}
use geo_readiness.Errors.{
  Outcome, ok, err, Error, AuthErrorCode, auth_error, domain_error, weak_password, unique_violation,
  query_failed, bad_body, not_configured, invalid_credentials, email_taken, rate_limited,
  invalid_token, email_not_verified, forbidden,
}
use geo_readiness.Http.{Response, answer_with, refuse, done, code_text, logged_in, registered}
use geo_readiness.Store.{World, M, return, throw, ◌>>=◌, ◌>>◌}
use geo_readiness.Auth.Session.{Crypto}
use geo_readiness.Auth.Login.{LoginContext, LoginResult, login, logout}
use geo_readiness.Auth.Account.{Made, RegisterResult, register_user, verify_email}
use geo_readiness.Auth.Origin.{Web, Headers, passes_origin, client_ip_hash}
use geo_readiness.Auth.Cookies.{Cookie, set_session_cookie, clear_session_cookie}

pub record Answer : Type 0 where
  pub response : Response
  pub cookie : Option Cookie

abbrev pub plain : Response → Answer
plain r = record { response = r; cookie = none }

-- The fields of a body that are wanted as texts: the body cannot be read, a field is no text, or all
-- are.
pub data Fields (A : Type 0) : Type 0 where
  unreadable not_texts : Fields A
  texts : A → Fields A

pub record Request (A : Type 0) : Type 0 where
  pub headers : Headers
  pub user_agent : Option Text
  pub body : Fields A

-- `try { … } catch (err) { … }`
abbrev pub caught_by : (Error → Response) → Outcome Answer × World → Answer × World
caught_by failure (ok a, w) = (a, w)
caught_by failure (err e, w) = (plain (failure e), w)

abbrev pub with_body : {A : Type 0} → (A → M Answer) → Fields A → M Answer
with_body run unreadable = throw bad_body
with_body run not_texts = return (plain (refuse 400 (codes "invalid_request")))
with_body run (texts a) = run a

-- `assertSameOrigin(req)` in front
abbrev pub guarded : Web → Headers → M Answer → M Answer
guarded web headers run =
    if not (passes_origin web headers) then throw (auth_error forbidden) else run

-- An `AuthError` is answered with its code, all else as an error of the server.
abbrev pub auth_failure : (AuthErrorCode → Response) → Error → Response
auth_failure answer (auth_error code) = answer code
auth_failure answer (domain_error p) = refuse 500 (codes "server_error")
auth_failure answer weak_password = refuse 500 (codes "server_error")
auth_failure answer unique_violation = refuse 500 (codes "server_error")
auth_failure answer query_failed = refuse 500 (codes "server_error")
auth_failure answer bad_body = refuse 500 (codes "server_error")
auth_failure answer not_configured = refuse 500 (codes "server_error")

abbrev login_failure : AuthErrorCode → Response
login_failure rate_limited = refuse 429 (code_text rate_limited)
login_failure forbidden = refuse 403 (code_text forbidden)
login_failure invalid_credentials = refuse 401 (code_text invalid_credentials)
login_failure email_taken = refuse 401 (code_text email_taken)
login_failure invalid_token = refuse 401 (code_text invalid_token)
login_failure email_not_verified = refuse 401 (code_text email_not_verified)

abbrev pub logged_in_answer : Bool → LoginResult → Answer
logged_in_answer is_prod r = record {
  response = answer_with 200 (logged_in r.organization_id r.email_verified);
  cookie = some (set_session_cookie is_prod r.session_token);
}

abbrev pub context_of : Web → Request (Text × Text) → LoginContext
context_of web req = record {
  user_agent = req.user_agent;
  ip_hash = client_ip_hash web req.headers;
}

abbrev pub log_in : Crypto → Bool → Text → Text → LoginContext → Text × Text → M Answer
log_in c is_prod id token ctx (email, password) = do
  r ← login c id token email password ctx
  return (logged_in_answer is_prod r)

unfoldable pub post_login :
    Crypto → Web → Bool → Text → Text → Request (Text × Text) → World → Answer × World
post_login c web is_prod id token req w = caught_by (auth_failure login_failure) (
    guarded web req.headers (with_body (log_in c is_prod id token (context_of web req)) req.body) w)

abbrev register_failure : AuthErrorCode → Response
register_failure email_taken = refuse 409 (code_text email_taken)
register_failure forbidden = refuse 403 (code_text forbidden)
register_failure invalid_credentials = refuse 400 (code_text invalid_credentials)
register_failure rate_limited = refuse 400 (code_text rate_limited)
register_failure invalid_token = refuse 400 (code_text invalid_token)
register_failure email_not_verified = refuse 400 (code_text email_not_verified)

abbrev or_weak : Error → Response
or_weak weak_password = refuse 400 (codes "weak_password")
or_weak (auth_error code) = register_failure code
or_weak (domain_error p) = refuse 500 (codes "server_error")
or_weak unique_violation = refuse 500 (codes "server_error")
or_weak query_failed = refuse 500 (codes "server_error")
or_weak bad_body = refuse 500 (codes "server_error")
or_weak not_configured = refuse 500 (codes "server_error")

-- The token of the verification is shown outside production only.
abbrev pub shown_token : Bool → RegisterResult → Option Text
shown_token is_prod r = if is_prod then none else some r.verification_token

abbrev pub sign_up : Crypto → Bool → Made → Text × Text → M Answer
sign_up c is_prod made (email, password) = do
  r ← register_user c made email password
  return (plain (answer_with 201 (registered (shown_token is_prod r))))

unfoldable pub post_register :
    Crypto → Web → Bool → Made → Request (Text × Text) → World → Answer × World
post_register c web is_prod made req w =
    caught_by or_weak (guarded web req.headers (with_body (sign_up c is_prod made) req.body) w)

abbrev logout_failure : AuthErrorCode → Response
logout_failure code = refuse 403 (code_text code)

abbrev log_out : Crypto → Bool → Option Text → M Answer
log_out c is_prod token = do
  logout c token
  return (record { response = answer_with 200 done; cookie = some (clear_session_cookie is_prod) })

-- `token` is the session cookie of the request.
unfoldable pub post_logout : Crypto → Web → Bool → Headers → Option Text → World → Answer × World
post_logout c web is_prod headers token w =
    caught_by (auth_failure logout_failure) (guarded web headers (log_out c is_prod token) w)

abbrev verify_failure : AuthErrorCode → Response
verify_failure invalid_token = refuse 400 (code_text invalid_token)
verify_failure forbidden = refuse 403 (code_text forbidden)
verify_failure rate_limited = refuse 403 (code_text rate_limited)
verify_failure invalid_credentials = refuse 403 (code_text invalid_credentials)
verify_failure email_taken = refuse 403 (code_text email_taken)
verify_failure email_not_verified = refuse 403 (code_text email_not_verified)

abbrev verify : Crypto → Text → M Answer
verify c token = do verify_email c token; return (plain (answer_with 200 done))

unfoldable pub post_verify_email : Crypto → Web → Request Text → World → Answer × World
post_verify_email c web req w =
    caught_by (auth_failure verify_failure)
      (guarded web req.headers (with_body (verify c) req.body) w)
