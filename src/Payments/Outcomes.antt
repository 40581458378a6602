-- ===== src/Payments/Outcomes.antt =====
-- What a grant answers and writes when every query goes through:
-- apps/web/lib/payments/entitlements.ts.
use geo_readiness.Common.{
  any, ℕ, Bool, true, false, ◌≡◌, refl, Option, none, some, leb, ◌||◌, Bool-cases, Option-cases,
  inl, inr, is_some,
}
use geo_readiness.Common.Text.{Text, text_eq_refl, lower}
use geo_readiness.Errors.{ok}
use geo_readiness.Store.{calm, uuid_eq, Db, query, Payment}
use geo_readiness.Payments.{
  Env, PromoKind, limited, unlimited, PromoGrant, granted, already_entitled, not_found,
  limit_reached, Owner, insert_stripe_payment, is_of_session, stripe_payment, pays_for, is_entitled,
  limited_used, limited_promo_max, promo_payment, add_payment, StripePaymentFacts,
  grant_promo_entitlement, grant_stripe_entitlement, has_entitlement, resolve_scan_owner,
  grant_promo_to, owner_of, limited_promo_limit_reached, limited_promo_usage,
}

abbrev over_cap : Env → PromoKind → Db → Bool
over_cap env unlimited db = false
over_cap env limited db = leb (limited_promo_max env) (limited_used db)

-- The answer to a redemption, by whether the scan is entitled, its owner, and whether the code is
-- at its cap.
abbrev pub verdict : Bool → Option Owner → Bool → PromoGrant
verdict true owner over = already_entitled
verdict false none over = not_found
verdict false (some owner) true = limit_reached
verdict false (some owner) false = granted

abbrev pub promo_answer : Env → Text → PromoKind → Db → PromoGrant
promo_answer env scan_id kind db =
    verdict (is_entitled scan_id db) (owner_of scan_id db) (over_cap env kind db)

abbrev paid_by : ℕ → Text → PromoKind → Db → Option Owner → PromoGrant → Db
paid_by now scan_id kind db (some owner) granted =
    add_payment (promo_payment now scan_id kind owner) db
paid_by now scan_id kind db none granted = db
paid_by now scan_id kind db o already_entitled = db
paid_by now scan_id kind db o not_found = db
paid_by now scan_id kind db o limit_reached = db

abbrev pub promo_db : ℕ → Env → Text → PromoKind → Db → Db
promo_db now env scan_id kind db =
    paid_by now scan_id kind db (owner_of scan_id db) (promo_answer env scan_id kind db)

module _ (env : Env) (now : ℕ) (scan_id : Text) (db : Db) where
  grant_promo_to-calm :
      (kind : PromoKind) (owner : Owner)
      → grant_promo_to env scan_id kind (some owner) (calm now db) ≡ (
        ok (verdict false (some owner) (over_cap env kind db)),
        calm now (
            paid_by now scan_id kind db
              (some owner)
              (verdict false (some owner) (over_cap env kind db))),
      )
  unfolding limited_promo_limit_reached limited_promo_usage query
  grant_promo_to-calm unlimited owner = refl
  grant_promo_to-calm limited owner =
      elim (Bool-cases (leb (limited_promo_max env) (limited_used db))) [
        | inl e ↦ rw e refl
        | inr e ↦ rw e refl
      ]

-- The answer is `already_entitled`, else `not_found` if the scan has no owner, else
-- `limit_reached` for the limited code at its cap, else `granted`; only the last writes, and it
-- writes one paid row of the scan.
pub grant_promo_entitlement-calm :
    (env : Env) (now : ℕ) (scan_id : Text) (kind : PromoKind) (db : Db)
    → grant_promo_entitlement env scan_id kind (calm now db)
      ≡ (ok (promo_answer env scan_id kind db), calm now (promo_db now env scan_id kind db))
unfolding grant_promo_entitlement has_entitlement resolve_scan_owner query
grant_promo_entitlement-calm env now scan_id kind db = elim (Bool-cases (is_entitled scan_id db)) [
  | inl e ↦ rw e refl
  | inr e ↦ rw e (elim (Option-cases (owner_of scan_id db)) [
    | inl q ↦ rw q refl
    | inr (owner, q) ↦ rw q (grant_promo_to-calm env now scan_id db kind owner)
  ])
]

is_entitled-add :
    (scan_id : Text) (p : Payment) (db : Db)
    → pays_for scan_id p ≡ true
    → is_entitled scan_id (add_payment p db) ≡ true
unfolding is_entitled
is_entitled-add scan_id p db h = rw h refl

pub uuid_eq_refl : (a : Text) → uuid_eq a a ≡ true
uuid_eq_refl a = text_eq_refl (lower a)

pub is_entitled-promo :
    (now : ℕ) (scan_id : Text) (kind : PromoKind) (owner : Owner) (db : Db)
    → is_entitled scan_id (add_payment (promo_payment now scan_id kind owner) db) ≡ true
is_entitled-promo now scan_id kind owner db =
    is_entitled-add scan_id (promo_payment now scan_id kind owner) db
      (rw (uuid_eq_refl scan_id) refl)

-- The answers after which the report is unlocked.
abbrev pub unlocks : PromoGrant → Bool
unlocks granted = true
unlocks already_entitled = true
unlocks not_found = false
unlocks limit_reached = false

is_entitled-paid_by :
    (now : ℕ) (scan_id : Text) (kind : PromoKind) (db : Db) (entitled : Bool) (o : Option Owner)
    (over : Bool)
    → is_entitled scan_id db ≡ entitled
    → is_entitled scan_id (paid_by now scan_id kind db o (verdict entitled o over))
      ≡ unlocks (verdict entitled o over)
is_entitled-paid_by now scan_id kind db true none over h = h
is_entitled-paid_by now scan_id kind db true (some owner) over h = h
is_entitled-paid_by now scan_id kind db false none over h = h
is_entitled-paid_by now scan_id kind db false (some owner) true h = h
is_entitled-paid_by now scan_id kind db false (some owner) false h =
    is_entitled-promo now scan_id kind owner db

-- With every query going through, a scan is entitled behind a redemption exactly if the answer was
-- `granted` or `already_entitled`.
pub is_entitled-promo_db :
    (env : Env) (now : ℕ) (scan_id : Text) (kind : PromoKind) (db : Db)
    → is_entitled scan_id (promo_db now env scan_id kind db)
      ≡ unlocks (promo_answer env scan_id kind db)
is_entitled-promo_db env now scan_id kind db =
    is_entitled-paid_by now scan_id kind db (is_entitled scan_id db) (owner_of scan_id db)
      (over_cap env kind db) refl

-- A redemption whose answer was granted or already_entitled makes any later one of the scan, of
-- either kind, answer already_entitled and write nothing, when their queries go through.
pub grant_promo_entitlement-again :
    (env : Env) (now later : ℕ) (scan_id : Text) (kind second : PromoKind) (db : Db)
    → unlocks (promo_answer env scan_id kind db) ≡ true
    → grant_promo_entitlement env scan_id second
        (calm later (grant_promo_entitlement env scan_id kind (calm now db)).1.db)
      ≡ (
        ok already_entitled,
        calm later (grant_promo_entitlement env scan_id kind (calm now db)).1.db,
      )
unfolding grant_promo_entitlement has_entitlement query
grant_promo_entitlement-again env now later scan_id kind second db h =
    rw (grant_promo_entitlement-calm env now scan_id kind db)
      (rw (is_entitled-promo_db env now scan_id kind db) (rw h refl))

abbrev booked_by : ℕ → StripePaymentFacts → Db → Bool → Option Owner → Db
booked_by now facts db true o = db
booked_by now facts db false none = db
booked_by now facts db false (some owner) = insert_stripe_payment facts owner now db

-- What a completed checkout comes to in the tables.
abbrev pub stripe_db : ℕ → StripePaymentFacts → Db → Db
stripe_db now facts db =
    booked_by now facts db (is_entitled facts.scan_id db) (owner_of facts.scan_id db)

-- The answer is `true` if the scan is entitled or has an owner; a row is written for a scan that is
-- not entitled and has an owner, unless its checkout session has one.
pub grant_stripe_entitlement-calm :
    (now : ℕ) (facts : StripePaymentFacts) (db : Db)
    → grant_stripe_entitlement facts (calm now db) ≡ (
      ok (is_entitled facts.scan_id db || is_some (owner_of facts.scan_id db)),
      calm now (stripe_db now facts db),
    )
unfolding grant_stripe_entitlement has_entitlement resolve_scan_owner query
grant_stripe_entitlement-calm now facts db = elim (Bool-cases (is_entitled facts.scan_id db)) [
  | inl e ↦ rw e refl
  | inr e ↦ rw e (elim (Option-cases (owner_of facts.scan_id db)) [
    | inl q ↦ rw q refl
    | inr (owner, q) ↦ rw q refl
  ])
]

is_entitled-booked_by :
    (now : ℕ) (facts : StripePaymentFacts) (db : Db)
    → any (is_of_session facts.checkout_session_id) db.payments ≡ false
    → (entitled : Bool) (o : Option Owner) → is_entitled facts.scan_id db ≡ entitled
    → is_entitled facts.scan_id (booked_by now facts db entitled o) ≡ entitled || is_some o
is_entitled-booked_by now facts db fresh true none h = h
is_entitled-booked_by now facts db fresh true (some owner) h = h
is_entitled-booked_by now facts db fresh false none h = h
is_entitled-booked_by now facts db fresh false (some owner) h = rw fresh (
    is_entitled-add facts.scan_id (stripe_payment now facts owner) db
      (rw (uuid_eq_refl facts.scan_id) refl))

-- A checkout that is granted for a scan not entitled before entitles it, unless its session has a
-- row already.
pub is_entitled-stripe_db :
    (now : ℕ) (facts : StripePaymentFacts) (db : Db)
    → any (is_of_session facts.checkout_session_id) db.payments ≡ false
    → is_entitled facts.scan_id (stripe_db now facts db)
      ≡ is_entitled facts.scan_id db || is_some (owner_of facts.scan_id db)
is_entitled-stripe_db now facts db fresh =
    is_entitled-booked_by now facts db fresh (is_entitled facts.scan_id db)
      (owner_of facts.scan_id db) refl
