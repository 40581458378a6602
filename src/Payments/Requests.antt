-- ===== src/Payments/Requests.antt =====
-- Grants one after the other, each a request of its own that may throw: what every single grant of
-- apps/web/lib/payments/entitlements.ts keeps, any sequence of them keeps.
use geo_readiness.Common.{List, [], ◌∷◌}
use geo_readiness.Common.Text.{Text}
use geo_readiness.Store.{Db, World}
use geo_readiness.Store.Logic.{After-end}
use geo_readiness.Payments.{
  Env, PromoKind, StripePaymentFacts, grant_promo_entitlement, grant_stripe_entitlement,
}
use geo_readiness.Payments.Kept.{
  AllowsPromo, AllowsStripe, grant_promo_entitlement-Kept, grant_stripe_entitlement-Kept,
}

pub data Request : Type 0 where
  redeem : Text → PromoKind → Request
  checkout : StripePaymentFacts → Request

unfoldable pub serve_grant : Env → Request → World → World
serve_grant env (redeem scan_id kind) w = (grant_promo_entitlement env scan_id kind w).1
serve_grant env (checkout facts) w = (grant_stripe_entitlement facts w).1

unfoldable pub serve_grants : Env → List Request → World → World
serve_grants env [] w = w
serve_grants env (r ∷ requests) w = serve_grants env requests (serve_grant env r w)

module _ (env : Env) (I : Db → Type 0)
    (promo : (scan_id : Text) (kind : PromoKind) → AllowsPromo I env scan_id kind)
    (stripe : (facts : StripePaymentFacts) → AllowsStripe I facts) where
  serve_grant-Kept : (r : Request) (w : World) → I w.db → I (serve_grant env r w).db
  unfolding serve_grant
  serve_grant-Kept (redeem scan_id kind) w h =
      After-end I (grant_promo_entitlement env scan_id kind w)
        (grant_promo_entitlement-Kept I env scan_id kind (promo scan_id kind) w h)
  serve_grant-Kept (checkout facts) w h =
      After-end I (grant_stripe_entitlement facts w)
        (grant_stripe_entitlement-Kept I facts (stripe facts) w h)

  pub serve_grants-Kept :
      (requests : List Request) (w : World) → I w.db → I (serve_grants env requests w).db
  unfolding serve_grants
  serve_grants-Kept [] w h = h
  serve_grants-Kept (r ∷ requests) w h =
      serve_grants-Kept requests (serve_grant env r w) (serve_grant-Kept r w h)
