-- ===== src/Api/Accounts/Admission.antt =====
-- Who gets a session cookie from apps/web/app/api/auth/login/route.ts.
use geo_readiness.Common.{
  ℕ, Bool, true, false, ◌≡◌, ◌≢◌, refl, sym, ◌∙◌, none, some, ◌⊎◌, inl, inr, not, Bool-cases,
}
use geo_readiness.Common.Text.{Text}
use geo_readiness.Errors.{Outcome, ok, err, Error}
use geo_readiness.Http.{Response}
use geo_readiness.Store.{Db, World, return}
use geo_readiness.Store.Logic.{After, After-and_then, After-if}
use geo_readiness.Auth.Session.{Crypto}
use geo_readiness.Auth.Login.{LoginContext, LoginResult, normalize_email}
use geo_readiness.Auth.Login.Sound.{Admitted, login-Admitted}
use geo_readiness.Auth.Origin.{Web, passes_origin}
use geo_readiness.Auth.Cookies.{Cookie, set_session_cookie}
use geo_readiness.Api.Accounts.{
  Answer, Fields, unreadable, not_texts, texts, Request, caught_by, with_body, guarded, context_of,
  log_in, logged_in_answer, post_login,
}

-- A login that went through: the mail address and the password of the body, the result that the
-- service answers, and the cookie of its session.
pub record LoggedIn (c : Crypto) (is_prod : Bool) (body : Fields (Text × Text)) (ctx : LoginContext)
    (now : ℕ) (before : Db) (cookie : Cookie) (db : Db) : Type 0 where
  pub email : Text
  pub password : Text
  pub is_body : body ≡ texts (email, password)
  pub result : LoginResult
  pub is_admitted : Admitted c (normalize_email email) password ctx now before result db
  pub is_cookie : cookie ≡ set_session_cookie is_prod result.session_token

abbrev Anything : Db → Type 0
Anything db = Unit

module _ (c : Crypto) (is_prod : Bool) (body : Fields (Text × Text)) (ctx : LoginContext) (now : ℕ)
    (before : Db) where
  abbrev Earned : Answer → Db → Type 0
  Earned a db =
      (a.cookie ≡ none)
      ⊎ ((cookie : Cookie)
          → a.cookie ≡ some cookie
          → LoggedIn c is_prod body ctx now before cookie db)

  logged_in-Earned :
      (email password : Text) (r : LoginResult) (w : World)
      → body ≡ texts (email, password)
      → Admitted c (normalize_email email) password ctx now before r w.db
      → After Earned Anything (return (logged_in_answer is_prod r) w)
  logged_in-Earned email password r w e h = inr λ cookie q. record {
    email = email;
    password = password;
    is_body = e;
    result = r;
    is_admitted = h;
    is_cookie = some_eq q;
  }
    where
      some_eq : {x y : Cookie} → some x ≡ some y → y ≡ x
      some_eq p = cc p

module _ (c : Crypto) (web : Web) (is_prod : Bool) (id token : Text) (req : Request (Text × Text))
    (w : World) where
  abbrev Good : Answer → Db → Type 0
  Good = Earned c is_prod req.body (context_of web req) w.now w.db

  body-Earned :
      (body : Fields (Text × Text))
      → req.body ≡ body
      → After Good Anything (with_body (log_in c is_prod id token (context_of web req)) body w)
  body-Earned unreadable e = tt
  body-Earned not_texts e = inl refl
  body-Earned (texts (email, password)) e =
      After-and_then (Admitted c (normalize_email email) password (context_of web req) w.now w.db)
        Good Anything _
        (λ r w' h.
          logged_in-Earned c is_prod req.body (context_of web req) w.now w.db email password r w' e
            h)
        _ (login-Admitted c id token email password (context_of web req) w)

  earned_cookie :
      (failure : Error → Response) (cookie : Cookie) (o : Outcome Answer × World)
      → After Good Anything o
      → (caught_by failure o).0.cookie ≡ some cookie
      → LoggedIn c is_prod req.body
          (context_of web req)
          w.now
          w.db
          cookie
          (caught_by failure o).1.db
  earned_cookie failure cookie (ok a, w') (inl n) e = absurd (none_some (sym n ∙ e))
    where
      none_some : none ≢ some cookie
      none_some q = cc
  earned_cookie failure cookie (ok a, w') (inr h) e = h cookie e
  earned_cookie failure cookie (err x, w') h e = cc

  guarded-Earned : After Good Anything (
      guarded web req.headers
        (with_body (log_in c is_prod id token (context_of web req)) req.body)
        w)
  guarded-Earned =
      After-if Good Anything (not (passes_origin web req.headers)) _ _ w (λ e. tt)
        (λ e. body-Earned req.body refl)

  foreign_cookie :
      passes_origin web req.headers ≡ false
      → (post_login c web is_prod id token req w).0.cookie ≡ none
  unfolding post_login
  foreign_cookie o = rw o refl

-- Whatever queries fail, a request gets a session cookie from the login only if it is of the same
-- origin and its body has a mail address and a password that the login service admits: below the
-- limit of failures, with a password that fits the stored hash, and the cookie is that of the
-- session that is stored for the user of that row.
pub post_login-LoggedIn :
    (c : Crypto) (web : Web) (is_prod : Bool) (id token : Text) (req : Request (Text × Text))
    (w : World) (cookie : Cookie)
    → (post_login c web is_prod id token req w).0.cookie ≡ some cookie
    → (passes_origin web req.headers ≡ true)
      × LoggedIn c is_prod req.body
          (context_of web req)
          w.now
          w.db
          cookie
          (post_login c web is_prod id token req w).1.db
unfolding post_login
post_login-LoggedIn c web is_prod id token req w cookie e = (
  elim (Bool-cases (passes_origin web req.headers)) [
    | inl o ↦ o
    | inr o ↦ absurd (none_some (sym (foreign_cookie c web is_prod id token req w o) ∙ e))
  ],
  earned_cookie c web is_prod id token req w _ cookie _
      (guarded-Earned c web is_prod id token req w) e,
)
  where
    none_some : none ≢ some cookie
    none_some q = cc
