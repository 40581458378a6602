-- ===== src/Api/Accounts/Tests.antt =====
-- The handlers of accounts at concrete inputs.
use geo_readiness.Common.{◌≡◌, refl, true, false, none, some, [], ◌∷◌, ◌++◌, if◌then◌else◌}
use geo_readiness.Common.Text.{Text, codes, text_eq, trim, lower, split_on}
use geo_readiness.Http.{refuse}
use geo_readiness.Store.{Db, calm, query, with_transaction}
use geo_readiness.Auth.Session.{Crypto, create_session, revoke_session}
use geo_readiness.Auth.RateLimit.{
  is_login_rate_limited, record_login_attempt, email_fails, ip_fails,
}
use geo_readiness.Auth.Login.{login_rows, verify_password, normalize_email, login}
use geo_readiness.Auth.Account.{
  Made, register_user, verify_email, hash_password, insert_pending, consume_token,
}
use geo_readiness.Auth.Origin.{Web, Headers, passes_origin, client_ip_hash, is_same_origin}
use geo_readiness.Auth.Cookies.{set_session_cookie, clear_session_cookie}
use geo_readiness.Api.Accounts.{
  Request, texts, not_texts, plain, context_of, post_login, post_logout, post_register,
  post_verify_email,
}
use geo_readiness.Api.Accounts.Admission.{LoggedIn, post_login-LoggedIn}

accounts : Unit {0}
unfolding query create_session revoke_session is_login_rate_limited record_login_attempt email_fails
    ip_fails login_rows verify_password normalize_email login register_user verify_email
    hash_password insert_pending consume_token with_transaction trim lower split_on passes_origin
    client_ip_hash is_same_origin post_login post_logout post_register post_verify_email
accounts = tt

abbrev crypto : Crypto
crypto = record {
  hash_password = λ t. codes "h" ++ t;
  hash_token = λ t. codes "h" ++ t;
  verify = λ stored password. some (text_eq stored (codes "h" ++ password));
}

abbrev web : Web
web = record {
  url_host = λ t. if text_eq t (codes "https://a.com") then some (codes "a.com") else none;
  url_hostname = λ t. none;
  hash_ip = λ t. t;
}

abbrev headers : Headers
headers = record {
  host = some (codes "a.com");
  origin = some (codes "https://a.com");
  referer = none;
  forwarded_for = none;
}

abbrev db : Db
db = record {
  payments = [];
  stripe_events = [];
  projects = [];
  scans = [];
  login_attempts = [];
  users =
      record {
        id = codes "u";
        email = codes "ann@a.com";
        status = codes "active";
        email_verified_at = some 1;
      }
      ∷ [];
  organizations = [];
  jobs = [];
  reports = [];
  credentials = record { user_id = codes "u"; password_hash = codes "hsecret words" } ∷ [];
  members = record { organization_id = codes "o"; user_id = codes "u"; role = codes "owner" } ∷ [];
  sessions = [];
  verification_tokens = [];
}

abbrev request : Text → Request (Text × Text)
request password = record {
  headers = headers;
  user_agent = none;
  body = texts (codes "ann@a.com", password);
}

abbrev made : Made
made = record { user = codes "v"; organization = codes "p"; token = codes "tok" }

test_handlers :
    ((post_login crypto web true (codes "i") (codes "t") (request (codes "guess")) (calm 5 db)).0
      ≡ plain (refuse 401 (codes "invalid_credentials")))
    × ((post_login crypto web true
          (codes "i")
          (codes "t")
          (record (request (codes "guess")) { headers = record headers { host = none } })
          (calm 5 db)).0
        ≡ plain (refuse 403 (codes "forbidden")))
    × ((post_register crypto web true made (request (codes "secret words")) (calm 5 db)).0
        ≡ plain (refuse 409 (codes "email_taken")))
    × ((post_verify_email crypto web
          (record { headers = headers; user_agent = none; body = not_texts })
          (calm 5 db)).0
        ≡ plain (refuse 400 (codes "invalid_request")))
    × ((post_logout crypto web false headers none (calm 5 db)).0.cookie
        ≡ some (clear_session_cookie false))
unfolding accounts
test_handlers = (refl, refl, refl, refl, refl)

cookie_set :
    (post_login crypto web true
      (codes "i")
      (codes "t")
      (request (codes "secret words"))
      (calm 5 db)).0.cookie
    ≡ some (set_session_cookie true (codes "t"))
unfolding accounts
cookie_set = refl

post_login-LoggedIn_example :
    (passes_origin web headers ≡ true)
    × LoggedIn crypto true
        (texts (codes "ann@a.com", codes "secret words"))
        (context_of web (request (codes "secret words")))
        5
        db
        (set_session_cookie true (codes "t"))
        (post_login crypto web true
          (codes "i")
          (codes "t")
          (request (codes "secret words"))
          (calm 5 db)).1.db
post_login-LoggedIn_example =
    post_login-LoggedIn crypto web true (codes "i") (codes "t") (request (codes "secret words"))
      (calm 5 db) (set_session_cookie true (codes "t")) cookie_set
