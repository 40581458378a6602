-- ===== src/Auth/Login/Sound.antt =====
-- Who is let in by `login` of apps/web/lib/auth/service.ts.
use geo_readiness.Common.{
  ℕ, Bool, true, false, ◌≡◌, refl, ap, sym, ◌∙◌, Option, none, some, ◌&&◌, any, head?,
}
use geo_readiness.Common.Text.{Text, text_eq, text_eq_refl}
use geo_readiness.Errors.{err, auth_error, rate_limited}
use geo_readiness.Store.{LoginSession, Db, World, calm, query}
use geo_readiness.Store.Logic.{After, After-and_then, After-query, After-if}
use geo_readiness.Auth.Session.{Crypto, create_session}
use geo_readiness.Auth.RateLimit.{is_limited, is_login_rate_limited, record_login_attempt}
use geo_readiness.Auth.Login.{
  LoginRow, LoginContext, LoginResult, login_rows, verify_password, normalize_email, refuse_login,
  admit, check_row, login,
}

abbrev is_session_of : Crypto → LoginResult → LoginSession → Bool
is_session_of c r s =
    text_eq s.token_hash (c.hash_token r.session_token) && text_eq s.user_id r.user_id

-- An admitted login: the row of the mail address, whose password was checked, for a caller below the
-- limit, and the session of its token.
pub record Admitted (c : Crypto) (email password : Text) (ctx : LoginContext) (now : ℕ)
    (before : Db) (r : LoginResult) (db : Db) : Type 0 where
  pub below_limit : is_limited email ctx.ip_hash now before ≡ false
  pub row : LoginRow
  pub is_row : head? (login_rows email before) ≡ some row
  pub is_checked : verify_password c row.password_hash password ≡ true
  pub is_user : r.user_id ≡ row.user_id
  pub has_session : any (is_session_of c r) db.sessions ≡ true

abbrev Anything : Db → Type 0
Anything db = Unit

module _ (c : Crypto) (id token email password : Text) (ctx : LoginContext) (now : ℕ)
    (before : Db) where
  abbrev Q : LoginResult → Db → Type 0
  Q r db = Admitted c email password ctx now before r db

  refuse_login-Admitted : (w : World) → After Q Anything (refuse_login email ctx w)
  unfolding record_login_attempt
  refuse_login-Admitted w =
      After-and_then (λ t db. Unit) Q Anything _ (λ t w1 h. tt) _
        (After-query (λ t db. Unit) Anything _ w tt tt)

  abbrev Created : LoginRow → Text → Db → Type 0
  Created row t db =
      (t ≡ token)
      × (any (λ s. text_eq s.token_hash (c.hash_token token) && text_eq s.user_id row.user_id)
            db.sessions
          ≡ true)

  create_session-Created :
      (row : LoginRow) (w : World)
      → After (Created row) Anything (
          create_session c id token
            (record { user_id = row.user_id; user_agent = ctx.user_agent; ip_hash = ctx.ip_hash })
            w)
  unfolding create_session
  create_session-Created row w =
      After-and_then (λ t. Created row token) (Created row) Anything _ (λ t w1 h. h) _
        (After-query (λ t. Created row token) Anything _ w
          (refl, rw (text_eq_refl (c.hash_token token)) (rw (text_eq_refl row.user_id) refl)) tt)

  admit-Admitted :
      (row : LoginRow)
      → is_limited email ctx.ip_hash now before ≡ false
      → head? (login_rows email before) ≡ some row
      → verify_password c row.password_hash password ≡ true
      → (w : World) → After Q Anything (admit c id token email ctx row w)
  unfolding record_login_attempt
  admit-Admitted row below e v w =
      After-and_then (λ t db. Unit) Q Anything _
        (λ t w1 h1.
          After-and_then (Created row) Q Anything _
            (λ s w2 h2. record {
              below_limit = below;
              row = row;
              is_row = e;
              is_checked = v;
              is_user = refl;
              has_session = rw h2.0 h2.1;
            })
            _ (create_session-Created row w1))
        _ (After-query (λ t db. Unit) Anything _ w tt tt)

  check_row-Admitted :
      (o : Option LoginRow)
      → is_limited email ctx.ip_hash now before ≡ false
      → head? (login_rows email before) ≡ o
      → (w : World) → After Q Anything (check_row c id token email ctx password o w)
  check_row-Admitted none below e w = refuse_login-Admitted w
  check_row-Admitted (some row) below e w =
      After-if Q Anything (verify_password c row.password_hash password) _ _ w
        (λ v. admit-Admitted row below e v w) (λ v. refuse_login-Admitted w)

-- Whatever queries fail, a login that answers let in a caller below the limit of failures, with a
-- password that fits the stored hash of the mail address, as the user of that row, and the session
-- of the token it answers is stored for that user.
pub login-Admitted :
    (c : Crypto) (id token raw_email password : Text) (ctx : LoginContext) (w : World)
    → After
        (Admitted c (normalize_email raw_email) password ctx w.now w.db)
        (λ db. Unit)
        (login c id token raw_email password ctx w)
unfolding login is_login_rate_limited
login-Admitted c id token raw_email password ctx w =
    let email = normalize_email raw_email in
    After-and_then (λ limited db. (db ≡ w.db) × (is_limited email ctx.ip_hash w.now w.db ≡ limited))
      (Admitted c email password ctx w.now w.db) Anything _
      (λ limited w1 h1.
        After-if (Admitted c email password ctx w.now w.db) Anything limited _ _ w1 (λ e. tt)
          (λ e.
            After-and_then (λ o db. head? (login_rows email w.db) ≡ o)
              (Admitted c email password ctx w.now w.db) Anything _
              (λ o w2 h2.
                check_row-Admitted c id token email password ctx w.now w.db o (h1.1 ∙ e) h2 w2)
              _
              (After-query (λ o db. head? (login_rows email w.db) ≡ o) Anything _ w1
                (ap (λ d. head? (login_rows email d)) (sym h1.0)) tt)))
      _
      (After-query (λ limited db. (db ≡ w.db) × (is_limited email ctx.ip_hash w.now w.db ≡ limited))
        Anything _ w (refl, refl) tt)

-- At the limit a login is refused, whatever the password, and no table changes, when the query goes
-- through.
pub login-limited :
    (c : Crypto) (id token raw_email password : Text) (ctx : LoginContext) (now : ℕ) (db : Db)
    → is_limited (normalize_email raw_email) ctx.ip_hash now db ≡ true
    → login c id token raw_email password ctx (calm now db)
      ≡ (err (auth_error rate_limited), calm now db)
unfolding login is_login_rate_limited query
login-limited c id token raw_email password ctx now db h = rw h refl
