-- ===== src/Api/Checkout/Unpaid.antt =====
-- When apps/web/app/api/checkout/route.ts hands out a link to pay.
use geo_readiness.Common.{
  true, false, ◌≡◌, refl, ◌∙◌, Option, none, some, ◌⊎◌, inl, inr, Bool-cases,
}
use geo_readiness.Common.Text.{Text}
use geo_readiness.Errors.{
  Outcome, ok, err, Error, auth_error, domain_error, weak_password, unique_violation, query_failed,
  bad_body, not_configured,
}
use geo_readiness.Http.{
  Response, Body, url, error, received, duplicate, done, already_paid, started, logged_in,
  registered, progress,
}
use geo_readiness.Store.{Db, World}
use geo_readiness.Store.Logic.{After, After-and_then, After-query, After-if}
use geo_readiness.Auth.Origin.{Web, passes_origin}
use geo_readiness.Scans.Repository.{is_uuid}
use geo_readiness.Payments.{Env, is_entitled, has_entitlement}
use geo_readiness.Payments.Stripe.{Stripe}
use geo_readiness.Payments.Checkout.{CheckoutResult, opened, unconfigured, create_checkout_session}
use geo_readiness.Api.Unlock.{Request}
use geo_readiness.Api.Checkout.{
  scan_id_of, origin_of, checkout_response, check_out_id, check_out, caught_checkout, post_checkout,
  failure,
}

-- The link of an answer.
abbrev pub link_in : Body → Option Text
link_in (url link) = some link
link_in (error code) = none
link_in received = none
link_in duplicate = none
link_in done = none
link_in already_paid = none
link_in (started id domain reused) = none
link_in (logged_in org verified) = none
link_in (registered token) = none
link_in (progress id status code pages) = none

-- Stripe opened a session for a scan that is not paid for, at the request of the site's own page.
pub record Opened (env : Env) (stripe : Stripe) (web : Web) (req : Request) (db : Db) (link : Text)
    : Type 0 where
  pub is_own : passes_origin web req.headers ≡ true
  pub scan_id : Text
  pub is_asked : scan_id_of req.body ≡ ok scan_id
  pub has_uuid : is_uuid scan_id ≡ true
  pub is_unpaid : is_entitled scan_id db ≡ false
  pub is_opened :
      create_checkout_session env stripe scan_id (origin_of req.headers) ≡ ok (opened link)

link_in-failure : (e : Error) → link_in (failure e).body ≡ none
link_in-failure (auth_error code) = refl
link_in-failure (domain_error p) = refl
link_in-failure weak_password = refl
link_in-failure unique_violation = refl
link_in-failure query_failed = refl
link_in-failure bad_body = refl
link_in-failure not_configured = refl

module _ (env : Env) (stripe : Stripe) (web : Web) (req : Request) (w : World) where
  abbrev Fair : Response → Db → Type 0
  Fair r db =
      (db ≡ w.db)
      × ((link_in r.body ≡ none)
          ⊎ ((link : Text) × (link_in r.body ≡ some link) × Opened env stripe web req w.db link))

  abbrev Same : Db → Type 0
  Same db = db ≡ w.db

  checkout_response-Fair :
      (id : Text) (o : Outcome CheckoutResult) (v : World)
      → v.db ≡ w.db
      → passes_origin web req.headers ≡ true
      → scan_id_of req.body ≡ ok id
      → is_uuid id ≡ true
      → is_entitled id w.db ≡ false
      → create_checkout_session env stripe id (origin_of req.headers) ≡ o
      → After Fair Same (checkout_response o v)
  checkout_response-Fair id (ok (opened link)) v h a b c d e = (
    h,
    inr (
      link,
      refl,
      record { is_own = a; scan_id = id; is_asked = b; has_uuid = c; is_unpaid = d; is_opened = e },
    ),
  )
  checkout_response-Fair id (ok unconfigured) v h a b c d e = (h, inl refl)
  checkout_response-Fair id (err x) v h a b c d e = h

  check_out_id-Fair :
      (o : Outcome Text)
      → passes_origin web req.headers ≡ true
      → scan_id_of req.body ≡ o
      → After Fair Same (check_out_id env stripe req.headers o w)
  unfolding has_entitlement
  check_out_id-Fair (err x) a b = refl
  check_out_id-Fair (ok id) a b = elim (Bool-cases (is_uuid id)) [
    | inr u ↦ rw u (refl, inl refl)
    | inl u ↦ rw u (
        After-and_then (λ p db. (db ≡ w.db) × (is_entitled id w.db ≡ p)) Fair Same _
          (λ p v h.
            After-if Fair Same p _ _ v (λ e. (h.0, inl refl))
              (λ e. checkout_response-Fair id _ v h.0 a b u (h.1 ∙ e) refl))
          _
          (After-query (λ p db. (db ≡ w.db) × (is_entitled id w.db ≡ p)) Same _ w (refl, refl)
            refl))
  ]

  check_out-Fair : After Fair Same (check_out env stripe web req w)
  unfolding check_out
  check_out-Fair = elim (Bool-cases (passes_origin web req.headers)) [
    | inl o ↦ rw o (check_out_id-Fair (scan_id_of req.body) o refl)
    | inr o ↦ rw o refl
  ]

  caught-Fair :
      (o : Outcome Response × World)
      → After Fair Same o
      → Fair (caught_checkout o).0 (caught_checkout o).1.db
  caught-Fair (ok r, v) h = h
  caught-Fair (err x, v) h = (h, inl (link_in-failure x))

-- Whatever queries fail and whatever the answer, the checkout changes no table. It answers no
-- link, or the link of the session that Stripe opened for the scan the request names: then the
-- request is of the same origin, the id has the form of a UUID and the scan is not paid for.
pub post_checkout-Opened :
    (env : Env) (stripe : Stripe) (web : Web) (req : Request) (w : World)
    → ((post_checkout env stripe web req w).1.db ≡ w.db)
      × ((link_in (post_checkout env stripe web req w).0.body ≡ none)
          ⊎ ((link : Text) × (link_in (post_checkout env stripe web req w).0.body ≡ some link)
              × Opened env stripe web req w.db link))
unfolding post_checkout
post_checkout-Opened env stripe web req w =
    caught-Fair env stripe web req w (check_out env stripe web req w)
      (check_out-Fair env stripe web req w)
