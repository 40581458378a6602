-- ===== src/Auth/Tests.antt =====
-- Authentication at concrete inputs.
use geo_readiness.Common.{any, ◌≡◌, refl, true, false, none, some, [], ◌∷◌, ◌++◌, arith}
use geo_readiness.Common.Text.{codes, text_eq, trim, lower}
use geo_readiness.Errors.{ok, err, auth_error, invalid_credentials, invalid_token}
use geo_readiness.Store.{LoginAttempt, Db, calm, query, with_transaction}
use geo_readiness.Auth.Session.{
  Crypto, CreateSessionInput, create_session, get_session, revoke_session,
}
use geo_readiness.Auth.Session.Life.{get_session-create_session, get_session-revoke_session}
use geo_readiness.Auth.RateLimit.{
  attempt_row, is_login_rate_limited, record_login_attempt, email_fails, ip_fails,
}
use geo_readiness.Auth.Login.{LoginContext, login_rows, verify_password, normalize_email, login}
use geo_readiness.Auth.Login.Refused.{login-refused}
use geo_readiness.Auth.Account.{
  Made, register_user, verify_email, hash_password, insert_pending, consume_token,
}
use geo_readiness.Auth.Account.Verified.{is_active, verify_email-once, verify_email-register_user}

logins : Unit {0}
unfolding query create_session get_session revoke_session is_login_rate_limited record_login_attempt
    email_fails ip_fails login_rows verify_password normalize_email login register_user verify_email
    hash_password insert_pending consume_token with_transaction trim lower
logins = tt

-- A hash that only marks a text.
abbrev crypto : Crypto
crypto = record {
  hash_password = λ t. codes "h" ++ t;
  hash_token = λ t. codes "h" ++ t;
  verify = λ stored password. some (text_eq stored (codes "h" ++ password));
}

abbrev ctx : LoginContext
ctx = record { user_agent = none; ip_hash = some (codes "ip") }

abbrev failure : LoginAttempt
failure = attempt_row (codes "ann@a.com") none false 0

abbrev db : Db
db = record {
  payments = [];
  stripe_events = [];
  projects = [];
  scans = [];
  login_attempts = failure ∷ failure ∷ [];
  users =
      record {
        id = codes "u";
        email = codes "ann@a.com";
        status = codes "active";
        email_verified_at = some 1;
      }
      ∷ [];
  organizations = [];
  jobs = [];
  reports = [];
  credentials = record { user_id = codes "u"; password_hash = codes "hsecret words" } ∷ [];
  members = record { organization_id = codes "o"; user_id = codes "u"; role = codes "owner" } ∷ [];
  sessions = [];
  verification_tokens = [];
}

abbrev locked_db : Db
locked_db = record db { login_attempts = failure ∷ failure ∷ failure ∷ failure ∷ failure ∷ [] }

abbrev input : CreateSessionInput
input = record { user_id = codes "u"; user_agent = none; ip_hash = none }

login_tests :
    ((login crypto
        (codes "i")
        (codes "t")
        (codes " Ann@A.com")
        (codes "secret words")
        ctx
        (calm 5 db)).0
      ≡ ok (record {
        user_id = codes "u";
        organization_id = some (codes "o");
        email_verified = true;
        session_token = codes "t";
      }))
    × ((login crypto
          (codes "i")
          (codes "t")
          (codes "bob@a.com")
          (codes "secret words")
          ctx
          (calm 5 db)).0
        ≡ err (auth_error invalid_credentials))
unfolding logins
login_tests = (refl, refl)

get_session-create_session_example :
    (get_session crypto
      (some (codes "t"))
      (calm 7 (create_session crypto (codes "i") (codes "t") input (calm 5 db)).1.db)).0
    ≡ ok (some (record { session_id = codes "i"; user_id = codes "u" }))
get_session-create_session_example =
    get_session-create_session crypto (codes "i") (codes "t") input 5 7 db refl (omega arith)

get_session-revoke_session_example :
    (get_session crypto
      (some (codes "t"))
      (calm 7 (revoke_session crypto (some (codes "t")) (calm 6 db)).1.db)).0
    ≡ ok none
get_session-revoke_session_example = get_session-revoke_session crypto (some (codes "t")) 6 7 db

login-refused_example :
    ((login crypto (codes "i") (codes "t") (codes "ann@a.com") (codes "guess") ctx (calm 5 db)).0
      ≡ err (auth_error invalid_credentials))
    × (email_fails
          (codes "ann@a.com")
          6
          (login crypto
            (codes "i")
            (codes "t")
            (codes "ann@a.com")
            (codes "guess")
            ctx
            (calm 5 db)).1.db
        ≡ 3)
unfolding logins
login-refused_example =
    login-refused crypto (codes "i") (codes "t") (codes "ann@a.com") (codes "guess") ctx 5 6 db refl
      refl (omega arith)

abbrev made : Made
made = record { user = codes "v"; organization = codes "w"; token = codes "x" }

abbrev waiting_db : Db
waiting_db = record db {
  verification_tokens =
      record { user_id = codes "u"; token_hash = codes "hx"; expires_at = 100; consumed_at = none }
      ∷ [];
}

verify_email-once_example :
    verify_email crypto
      (codes "x")
      (calm 7 (verify_email crypto (codes "x") (calm 5 waiting_db)).1.db)
    ≡ (
      err (auth_error invalid_token),
      calm 7 (verify_email crypto (codes "x") (calm 5 waiting_db)).1.db,
    )
unfolding logins
verify_email-once_example =
    verify_email-once crypto (codes "x") (codes "u") 5 7 waiting_db (omega arith) refl

verify_email-register_user_example :
    ((verify_email crypto (codes "x") (
        calm 7
          (register_user crypto made
            (codes "Bob@a.com")
            (codes "secret words")
            (calm 5 db)).1.db)).0
      ≡ ok (codes "v"))
    × (any
          (is_active (codes "v") (normalize_email (codes "Bob@a.com")))
          (verify_email crypto (codes "x") (
            calm 7
              (register_user crypto made
                (codes "Bob@a.com")
                (codes "secret words")
                (calm 5 db)).1.db)).1.db.users
        ≡ true)
unfolding logins
verify_email-register_user_example =
    verify_email-register_user crypto made (codes "Bob@a.com") (codes "secret words") 5 7 db refl
      refl (omega arith)
