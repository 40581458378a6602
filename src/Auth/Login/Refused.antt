-- ===== src/Auth/Login/Refused.antt =====
-- A refused `login` of apps/web/lib/auth/service.ts counts for the limit on failures.
use geo_readiness.Common.{
  ltb_of, ℕ, suc, ◌+◌, ◌<◌, Bool, false, ◌≡◌, refl, Option, none, some, ◌∷◌, head?,
}
use geo_readiness.Common.Text.{Text, text_eq_refl, lower}
use geo_readiness.Errors.{err, auth_error, invalid_credentials}
use geo_readiness.Store.{Db, calm, query}
use geo_readiness.Auth.Session.{Crypto}
use geo_readiness.Auth.RateLimit.{
  is_limited, is_login_rate_limited, record_login_attempt, email_fails, login_window_ms,
  attempt_row,
}
use geo_readiness.Auth.Login.{
  LoginRow, LoginContext, login_rows, verify_password, normalize_email, check_row, login,
}

-- Whether the row of a mail address lets the password in.
abbrev pub accepts : Crypto → Text → Option LoginRow → Bool
accepts c password none = false
accepts c password (some row) = verify_password c row.password_hash password

abbrev failed_db : Text → LoginContext → ℕ → Db → Db
failed_db email ctx now db = record db {
  login_attempts = attempt_row email ctx.ip_hash false now ∷ db.login_attempts;
}

check_row-refused :
    (c : Crypto) (id token email password : Text) (ctx : LoginContext) (now : ℕ) (db : Db)
    (o : Option LoginRow)
    → accepts c password o ≡ false
    → check_row c id token email ctx password o (calm now db)
      ≡ (err (auth_error invalid_credentials), calm now (failed_db email ctx now db))
unfolding record_login_attempt query
check_row-refused c id token email password ctx now db none h = refl
check_row-refused c id token email password ctx now db (some row) h = rw h refl

email_fails-failed :
    (email : Text) (ctx : LoginContext) (now later : ℕ) (db : Db)
    → later < now + login_window_ms
    → email_fails email later (failed_db email ctx now db) ≡ suc (email_fails email later db)
unfolding email_fails
email_fails-failed email ctx now later db h =
    rw (ltb_of later (now + login_window_ms) h) (rw (text_eq_refl (lower email)) refl)

-- Below the limit, a login whose mail address has no row or whose password does not fit is refused
-- with the same error in both cases, and for fifteen minutes it adds one to the failures of its
-- mail address, when the queries go through.
pub login-refused :
    (c : Crypto) (id token raw_email password : Text) (ctx : LoginContext) (now later : ℕ) (db : Db)
    → is_limited (normalize_email raw_email) ctx.ip_hash now db ≡ false
    → accepts c password (head? (login_rows (normalize_email raw_email) db)) ≡ false
    → later < now + login_window_ms
    → ((login c id token raw_email password ctx (calm now db)).0
        ≡ err (auth_error invalid_credentials))
      × (email_fails
            (normalize_email raw_email)
            later
            (login c id token raw_email password ctx (calm now db)).1.db
          ≡ suc (email_fails (normalize_email raw_email) later db))
unfolding login is_login_rate_limited query
login-refused c id token raw_email password ctx now later db h a k =
    let email = normalize_email raw_email in
    rw h (
      rw (check_row-refused c id token email password ctx now db (head? (login_rows email db)) a)
        (refl, email_fails-failed email ctx now later db k))
