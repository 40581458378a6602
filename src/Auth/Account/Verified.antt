-- ===== src/Auth/Account/Verified.antt =====
-- The token of a registration in apps/web/lib/auth/service.ts: good once.
use geo_readiness.Common.{
  ltb_of, ℕ, ◌+◌, ◌<◌, ◌≤◌, Bool, true, false, ◌≡◌, refl, ap, sym, ◌∙◌, Option, none, some, List,
  [], ◌∷◌, ◌&&◌, ltb, head?, keep, map, is_some, length, arith, Bool-cases, Option-cases, inl, inr,
  any,
}
use geo_readiness.Common.Text.{Text, text_eq, text_eq_refl, lower, codes}
use geo_readiness.Errors.{Error, ok, err, auth_error, invalid_token}
use geo_readiness.Store.{VerificationToken, uuid_eq, User, Db, calm, query, with_transaction}
use geo_readiness.Auth.Session.{Crypto}
use geo_readiness.Auth.Login.{normalize_email}
use geo_readiness.Auth.Account.{
  Made, hash_password, min_password_length, verification_ttl_ms, is_taken, insert_pending,
  register_user, is_usable, consume_if, consume_token, activate_if, verify_email,
}

stays_expired : (a b x : ℕ) → ltb a x ≡ false → a ≤ b → ltb b x ≡ false
stays_expired a b x h k = ground arith

used_is_spent :
    (hash : Text) (now later : ℕ) (t : VerificationToken)
    → now ≤ later
    → is_usable hash later (consume_if hash now t) ≡ false
used_is_spent hash now later t h = elim (Bool-cases (text_eq t.token_hash hash)) [
  | inl e ↦ elim (Bool-cases (is_some t.consumed_at)) [
    | inl q ↦ rw e (rw q (rw e (rw q refl)))
    | inr q ↦ elim (Bool-cases (ltb now t.expires_at)) [
      | inl r ↦ rw e (rw q (rw r (rw e refl)))
      | inr r ↦ rw e (rw q (rw r (rw e (rw q (stays_expired now later t.expires_at r h)))))
    ]
  ]
  | inr e ↦ rw e (rw e refl)
]

none_usable :
    (hash : Text) (now later : ℕ) (ts : List VerificationToken)
    → now ≤ later
    → keep (is_usable hash later) (map (consume_if hash now) ts) ≡ []
none_usable hash now later [] h = refl
none_usable hash now later (t ∷ ts) h =
    rw (used_is_spent hash now later t h) (none_usable hash now later ts h)

-- What a verification leaves when it finds a token.
abbrev used_db : Text → ℕ → Db → VerificationToken → Db
used_db hash now db t = record db {
  verification_tokens = map (consume_if hash now) db.verification_tokens;
  users = map (activate_if t.user_id now) db.users;
}

err-ok : {e : Error} {a : Text} → err e ≡ ok a → ⊥
err-ok h = cc

module _ (c : Crypto) (token : Text) (now : ℕ) (db : Db) where
  abbrev found : Option VerificationToken
  found = head? (keep (is_usable (c.hash_token token) now) db.verification_tokens)

  verify_email-found :
      (t : VerificationToken)
      → found ≡ some t
      → verify_email c token (calm now db)
        ≡ (ok t.user_id, calm now (used_db (c.hash_token token) now db t))
  unfolding verify_email consume_token with_transaction query
  verify_email-found t h = rw h refl

  verify_email-missing :
      found ≡ none
      → verify_email c token (calm now db) ≡ (err (auth_error invalid_token), calm now db)
  unfolding verify_email consume_token with_transaction query
  verify_email-missing h = rw h refl

-- A token that verified a mail address is refused from then on, and the refusal changes no table,
-- when the queries go through.
pub verify_email-once :
    (c : Crypto) (token user : Text) (now later : ℕ) (db : Db)
    → now ≤ later
    → (verify_email c token (calm now db)).0 ≡ ok user
    → verify_email c token (calm later (verify_email c token (calm now db)).1.db)
      ≡ (err (auth_error invalid_token), calm later (verify_email c token (calm now db)).1.db)
verify_email-once c token user now later db h first = elim (Option-cases (found c token now db)) [
  | inl e ↦ absurd (err-ok (sym (ap (λ r. r.0) (verify_email-missing c token now db e)) ∙ first))
  | inr (t, e) ↦ rw (verify_email-found c token now db t e) (
      verify_email-missing c token later (used_db (c.hash_token token) now db t)
        (rw (none_usable (c.hash_token token) now later db.verification_tokens h) refl))
]

-- Whether a mail address belongs to a user of that id who is active and verified.
abbrev pub is_active : Text → Text → User → Bool
is_active id email u =
    uuid_eq u.id id
    && text_eq u.email email
    && text_eq u.status (codes "active")
    && is_some u.email_verified_at

-- A registration with a long enough password and a mail address that is free, and then a
-- verification with its token within a day, answer with the id of the new user, who is then active
-- and verified, when the queries go through.
pub verify_email-register_user :
    (c : Crypto) (made : Made) (raw_email password : Text) (now later : ℕ) (db : Db)
    → ltb (length password) min_password_length ≡ false
    → is_taken (normalize_email raw_email) db ≡ false
    → later < now + verification_ttl_ms
    → ((verify_email c made.token
          (calm later (register_user c made raw_email password (calm now db)).1.db)).0
        ≡ ok made.user)
      × (any
            (is_active made.user (normalize_email raw_email))
            (verify_email c made.token
              (calm later (register_user c made raw_email password (calm now db)).1.db)).1.db.users
          ≡ true)
unfolding register_user hash_password insert_pending verify_email consume_token with_transaction
    query
verify_email-register_user c made raw_email password now later db long free h = rw long (
    rw free (
      rw (text_eq_refl (c.hash_token made.token)) (
        rw (ltb_of later (now + verification_ttl_ms) h) (
          refl,
          rw (text_eq_refl (lower made.user)) (
              rw (text_eq_refl (lower made.user))
                (rw (text_eq_refl (normalize_email raw_email)) refl)),
        ))))
