-- ===== src/Auth/RateLimit.antt =====
-- The limit on failed logins: apps/web/lib/auth/rateLimit.ts.
use geo_readiness.Common.{
  ℕ, ◌+◌, ◌*◌, Bool, false, Option, none, some, ◌∷◌, ◌&&◌, ◌||◌, not, ltb, leb, keep, length,
}
use geo_readiness.Common.Text.{Text, text_eq, lower}
use geo_readiness.Store.{LoginAttempt, Db, M, select, execute}

abbrev pub login_window_ms : ℕ
login_window_ms = 15 * 60000

abbrev pub max_failed_per_email : ℕ
max_failed_per_email = 5

abbrev pub max_failed_per_ip : ℕ
max_failed_per_ip = 20

abbrev pub attempt_row : Text → Option Text → Bool → ℕ → LoginAttempt
attempt_row email ip_hash successful now = record {
  email = lower email;
  ip_hash = ip_hash;
  successful = successful;
  created_at = now;
}

unfoldable pub record_login_attempt : Text → Option Text → Bool → M (Unit {0})
record_login_attempt email ip_hash successful = execute (λ now db. record db {
  login_attempts = attempt_row email ip_hash successful now ∷ db.login_attempts;
})

-- A failed attempt within the window.
abbrev pub counts : ℕ → LoginAttempt → Bool
counts now a = not a.successful && ltb now (a.created_at + login_window_ms)

-- `ip_hash IS NOT NULL AND ip_hash = $2`
abbrev pub same_ip : Option Text → Option Text → Bool
same_ip (some a) (some b) = text_eq a b
same_ip none b = false
same_ip (some a) none = false

unfoldable pub email_fails : Text → ℕ → Db → ℕ
email_fails email now db =
    length (keep (λ a. counts now a && text_eq a.email (lower email)) db.login_attempts)

unfoldable pub ip_fails : Option Text → ℕ → Db → ℕ
ip_fails ip_hash now db =
    length (keep (λ a. counts now a && same_ip a.ip_hash ip_hash) db.login_attempts)

abbrev pub is_limited : Text → Option Text → ℕ → Db → Bool
is_limited email ip_hash now db =
    leb max_failed_per_email (email_fails email now db)
    || leb max_failed_per_ip (ip_fails ip_hash now db)

unfoldable pub is_login_rate_limited : Text → Option Text → M Bool
is_login_rate_limited email ip_hash = select (is_limited email ip_hash)
