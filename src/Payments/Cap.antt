-- ===== src/Payments/Cap.antt =====
-- The cap of the limited promo code: `limitedPromoLimitReached` and `grantPromoEntitlement` of
-- apps/web/lib/payments/entitlements.ts.
use geo_readiness.Common.{◌≤◌, refl, List, arith}
use geo_readiness.Common.Text.{Text}
use geo_readiness.Store.{Db, World}
use geo_readiness.Payments.{
  Env, PromoKind, limited, unlimited, StripePaymentFacts, limited_used, limited_promo_max,
}
use geo_readiness.Payments.Kept.{AllowsPromo, AllowsStripe}
use geo_readiness.Payments.Requests.{Request, serve_grants, serve_grants-Kept}

module _ (env : Env) where
  abbrev BelowCap : Db → Type 0
  BelowCap db = limited_used db ≤ limited_promo_max env

  promo-BelowCap : (scan_id : Text) (kind : PromoKind) → AllowsPromo BelowCap env scan_id kind
  unfolding limited_used
  promo-BelowCap scan_id unlimited now owner db h free below = h
  promo-BelowCap scan_id limited now owner db h free below = omega (arith, below refl)

  stripe-BelowCap : (facts : StripePaymentFacts) → AllowsStripe BelowCap facts
  unfolding limited_used
  stripe-BelowCap facts now owner db h free fresh = h

-- However many redemptions and checkouts are served one after the other, and whichever of their
-- queries fail, the limited code is never redeemed more often than its maximum, if it was not
-- before.
pub limited_used-serve_grants :
    (env : Env) (requests : List Request) (w : World)
    → limited_used w.db ≤ limited_promo_max env
    → limited_used (serve_grants env requests w).db ≤ limited_promo_max env
limited_used-serve_grants env requests w h =
    serve_grants-Kept env (BelowCap env) (promo-BelowCap env) (stripe-BelowCap env) requests w h
