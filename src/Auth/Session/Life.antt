-- ===== src/Auth/Session/Life.antt =====
-- From `createSession` to `revokeSession` in apps/web/lib/auth/session.ts.
use geo_readiness.Common.{
  ltb_of, ℕ, ◌+◌, ◌<◌, false, ◌≡◌, refl, Option, none, some, List, [], ◌∷◌, keep, map, is_some,
  Bool-cases, inl, inr,
}
use geo_readiness.Common.Text.{Text, text_eq, text_eq_refl, is_empty}
use geo_readiness.Errors.{ok}
use geo_readiness.Store.{LoginSession, Db, calm, query}
use geo_readiness.Auth.Session.{
  Crypto, CreateSessionInput, create_session, get_session, revoke_session, revoke_if, is_live,
  session_ttl_ms,
}

-- A session that was created is found by its token until thirty days have passed, with its id and
-- its user, when the queries go through; the token is not empty.
pub get_session-create_session :
    (c : Crypto) (id token : Text) (input : CreateSessionInput) (now later : ℕ) (db : Db)
    → is_empty token ≡ false
    → later < now + session_ttl_ms
    → (get_session c
        (some token)
        (calm later (create_session c id token input (calm now db)).1.db)).0
      ≡ ok (some (record { session_id = id; user_id = input.user_id }))
unfolding get_session create_session query
get_session-create_session c id token input now later db e h =
    rw e (rw (text_eq_refl (c.hash_token token)) (rw (ltb_of later (now + session_ttl_ms) h) refl))

revoked_is_dead :
    (hash : Text) (now later : ℕ) (s : LoginSession)
    → is_live hash later (revoke_if (λ t. text_eq t.token_hash hash) now s) ≡ false
revoked_is_dead hash now later s = elim (Bool-cases (text_eq s.token_hash hash)) [
  | inl e ↦ elim (Bool-cases (is_some s.revoked_at)) [
    | inl q ↦ rw e (rw q (rw e (rw q refl)))
    | inr q ↦ rw e (rw q (rw e refl))
  ]
  | inr e ↦ rw e (rw e refl)
]

none_live :
    (hash : Text) (now later : ℕ) (xs : List LoginSession)
    → keep (is_live hash later) (map (revoke_if (λ s. text_eq s.token_hash hash) now) xs) ≡ []
none_live hash now later [] = refl
none_live hash now later (s ∷ xs) =
    rw (revoked_is_dead hash now later s) (none_live hash now later xs)

-- After the session of a token is revoked no session is found by it, at any time, when the queries
-- go through.
pub get_session-revoke_session :
    (c : Crypto) (token : Option Text) (now later : ℕ) (db : Db)
    → (get_session c token (calm later (revoke_session c token (calm now db)).1.db)).0 ≡ ok none
unfolding get_session revoke_session query
get_session-revoke_session c none now later db = refl
get_session-revoke_session c (some token) now later db = elim (Bool-cases (is_empty token)) [
  | inl e ↦ rw e refl
  | inr e ↦ rw e (rw (none_live (c.hash_token token) now later db.sessions) refl)
]
