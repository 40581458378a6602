-- ===== src/Payments/Checkout.antt =====
-- The checkout: apps/web/lib/payments/checkout.ts.
use geo_readiness.Common.{
  Bool, true, false, ◌≡◌, refl, Option, none, some, ◌&&◌, ◌++◌, not, if◌then◌else◌, is_some,
  Bool-cases, inl, inr, ◌⊎◌,
}
use geo_readiness.Common.Text.{Text, codes, text_eq}
use geo_readiness.Errors.{Outcome, ok, err, not_configured}
use geo_readiness.Store.{M, World, return}
use geo_readiness.Payments.{Env, grant_stripe_entitlement}
use geo_readiness.Payments.Stripe.{Stripe, Session, given, get_stripe, scan_of, facts_of}

unfoldable pub stripe_configured : Env → Bool
stripe_configured env = is_some (given env.stripe_secret_key) && is_some (given env.stripe_price)

-- `catch { return false }`
abbrev pub or_false : Outcome Bool × World → Outcome Bool × World
or_false (ok b, w) = (ok b, w)
or_false (err e, w) = (ok false, w)

abbrev pub same_scan : Text → Option Text → Bool
same_scan scan_id none = false
same_scan scan_id (some other) = text_eq other scan_id

abbrev pub confirm_session : Text → Option Session → M Bool
confirm_session scan_id none = return false
confirm_session scan_id (some session) =
    if not (text_eq session.payment_status (codes "paid"))
    then return false
    else if not (same_scan scan_id (scan_of session))
    then return false
    else (λ w. or_false (grant_stripe_entitlement (facts_of scan_id session) w))

abbrev pub retrieved : Text → Option Stripe → Option Session
retrieved session_id none = none
retrieved session_id (some client) = client.retrieve session_id

unfoldable pub confirm_checkout_session : Env → Stripe → Text → Text → M Bool
confirm_checkout_session env stripe scan_id session_id =
    if stripe_configured env
    then confirm_session scan_id (retrieved session_id (get_stripe env stripe))
    else return false

pub data CheckoutResult : Type 0 where
  opened : Text → CheckoutResult
  unconfigured : CheckoutResult

abbrev opened_at : Option (Option Text) → Outcome CheckoutResult
opened_at none = err not_configured
opened_at (some none) = ok unconfigured
opened_at (some (some url)) =
    ok (elim (given (some url)) [ none ↦ unconfigured | some u ↦ opened u ])

abbrev pub create_at : Text → Text → Text → Option Stripe → Outcome CheckoutResult
create_at price scan_id origin none = err not_configured
create_at price scan_id origin (some client) = opened_at (
    client.create price scan_id
      (origin ++ codes "/report/" ++ scan_id ++ codes "?session_id={CHECKOUT_SESSION_ID}")
      (origin ++ codes "/scan/" ++ scan_id))

abbrev pub create_for : Env → Stripe → Text → Text → Option Text → Outcome CheckoutResult
create_for env stripe scan_id origin none = ok unconfigured
create_for env stripe scan_id origin (some price) =
    create_at price scan_id origin (get_stripe env stripe)

unfoldable pub create_checkout_session : Env → Stripe → Text → Text → Outcome CheckoutResult
create_checkout_session env stripe scan_id origin =
    create_for env stripe scan_id origin (given env.stripe_price)

-- A session that the client has, paid, for the scan.
pub record PaidSession (env : Env) (stripe : Stripe) (scan_id session_id : Text) : Type 0 where
  pub session : Session
  pub is_retrieved : retrieved session_id (get_stripe env stripe) ≡ some session
  pub is_paid : text_eq session.payment_status (codes "paid") ≡ true
  pub is_own : same_scan scan_id (scan_of session) ≡ true

-- What a confirmation may have come to: it never throws, says `true` only for a paid session of the
-- scan, and without one leaves the world as it was.
abbrev pub Confirmed : Env → Stripe → Text → Text → World → Outcome Bool × World → Type 0
Confirmed env stripe scan_id session_id before (ok true, w) =
    PaidSession env stripe scan_id session_id
Confirmed env stripe scan_id session_id before (ok false, w) =
    PaidSession env stripe scan_id session_id ⊎ (w ≡ before)
Confirmed env stripe scan_id session_id before (err e, w) = ⊥

module _ (env : Env) (stripe : Stripe) (scan_id session_id : Text) (before : World) where
  or_false-Confirmed :
      (o : Outcome Bool × World)
      → PaidSession env stripe scan_id session_id
      → Confirmed env stripe scan_id session_id before (or_false o)
  or_false-Confirmed (ok true, w) p = p
  or_false-Confirmed (ok false, w) p = inl p
  or_false-Confirmed (err e, w) p = inl p

  confirm_session-Confirmed :
      (o : Option Session)
      → retrieved session_id (get_stripe env stripe) ≡ o
      → Confirmed env stripe scan_id session_id before (confirm_session scan_id o before)
  confirm_session-Confirmed none e = inr refl
  confirm_session-Confirmed (some session) e =
      elim (Bool-cases (text_eq session.payment_status (codes "paid"))) [
        | inl p ↦ rw p (elim (Bool-cases (same_scan scan_id (scan_of session))) [
          | inl q ↦ rw q (
              or_false-Confirmed _
                (record { session = session; is_retrieved = e; is_paid = p; is_own = q }))
          | inr q ↦ rw q (inr refl)
        ])
        | inr p ↦ rw p (inr refl)
      ]

-- Whatever queries fail, a confirmation does not throw, and it answers true or touches the world
-- only if the client has a paid session of that id that names this scan.
pub confirm_checkout_session-Confirmed :
    (env : Env) (stripe : Stripe) (scan_id session_id : Text) (w : World)
    → Confirmed env stripe scan_id session_id w
        (confirm_checkout_session env stripe scan_id session_id w)
unfolding confirm_checkout_session
confirm_checkout_session-Confirmed env stripe scan_id session_id w =
    elim (Bool-cases (stripe_configured env)) [
      | inl e ↦ rw e (
          confirm_session-Confirmed env stripe scan_id session_id w
            (retrieved session_id (get_stripe env stripe)) refl)
      | inr e ↦ rw e (inr refl)
    ]
