-- ===== src/Payments/Kept.antt =====
-- What a grant of apps/web/lib/payments/entitlements.ts may rely on when it writes its row, and so
-- what it keeps, whichever of its queries fail.
use geo_readiness.Common.{
  ℕ, Bool, false, ◌≡◌, refl, Option, none, some, ◌<◌, ◌∙◌, Bool-cases, inl, inr, any, arith,
}
use geo_readiness.Common.Text.{Text}
use geo_readiness.Store.{Db, World}
use geo_readiness.Store.Logic.{After, After-and_then, After-query, After-if}
use geo_readiness.Payments.{
  Env, PromoKind, limited, unlimited, Owner, is_entitled, limited_used, limited_promo_max,
  promo_payment, add_payment, StripePaymentFacts, stripe_payment, is_of_session,
  grant_promo_entitlement, grant_stripe_entitlement, has_entitlement, resolve_scan_owner,
  grant_promo_to, grant_stripe_to, cap_reached, insert_stripe_payment, Usage,
  limited_promo_limit_reached, limited_promo_usage,
}

module _ (I : Db → Type 0) where
  abbrev Kept : {A : Type 0} → A → Db → Type 0
  Kept a db = I db

  module _ (env : Env) (scan_id : Text) (kind : PromoKind) where
    -- The invariant survives the row of a scan that is not entitled, for the limited code below its
    -- cap.
    abbrev pub AllowsPromo : Type 0
    AllowsPromo =
        (now : ℕ) (owner : Owner) (db : Db)
        → I db
        → is_entitled scan_id db ≡ false
        → (kind ≡ limited → limited_used db < limited_promo_max env)
        → I (add_payment (promo_payment now scan_id kind owner) db)

    abbrev Open : Db → Type 0
    Open db = I db × (is_entitled scan_id db ≡ false)

    abbrev Below : Bool → Db → Type 0
    Below reached db =
        Open db × (reached ≡ false → kind ≡ limited → limited_used db < limited_promo_max env)

    abbrev Counted : Usage → Db → Type 0
    Counted u db = Open db × (u.used ≡ limited_used db) × (u.limit ≡ limited_promo_max env)

    limited_promo_usage-Counted :
        (w : World) → Open w.db → After Counted I (limited_promo_usage env w)
    unfolding limited_promo_usage
    limited_promo_usage-Counted w h =
        After-and_then (λ used db. Open db × (used ≡ limited_used db)) Counted I _
          (λ used w' h'. (h'.0, h'.1, refl)) _
          (After-query (λ used db. Open db × (used ≡ limited_used db)) I
            (λ now db. (limited_used db, db)) w (h, refl) h.0)

  cap_reached-Below :
      (env : Env) (scan_id : Text) (kind : PromoKind) (w : World)
      → Open env scan_id kind w.db
      → After (Below env scan_id kind) I (cap_reached env kind w)
  unfolding limited_promo_limit_reached
  cap_reached-Below env scan_id unlimited w h = (h, λ e k. cc)
  cap_reached-Below env scan_id limited w h =
      After-and_then (Counted env scan_id limited) (Below env scan_id limited) I _
        (λ u w' h'. (h'.0, λ e k. ground arith)) _
        (limited_promo_usage-Counted env scan_id limited w h)

  module _ (env : Env) (scan_id : Text) (kind : PromoKind)
      (allows : AllowsPromo env scan_id kind) where
    grant_promo_to-Kept :
        (owner : Option Owner) (w : World)
        → Open env scan_id kind w.db
        → After Kept I (grant_promo_to env scan_id kind owner w)
    grant_promo_to-Kept none w h = h.0
    grant_promo_to-Kept (some owner) w h =
        After-and_then (Below env scan_id kind) Kept I _
          (λ reached w' h'.
            After-if Kept I reached _ _ w' (λ e. h'.0.0)
              (λ e.
                After-and_then Kept Kept I _ (λ t w'' h''. h'') _
                  (After-query Kept I _ w' (allows w'.now owner w'.db h'.0.0 h'.0.1 (h'.1 e))
                    h'.0.0)))
          _ (cap_reached-Below env scan_id kind w h)

    -- What every row of a promo code keeps, the grant keeps, whichever query fails.
    pub grant_promo_entitlement-Kept :
        (w : World) → I w.db → After Kept I (grant_promo_entitlement env scan_id kind w)
    unfolding grant_promo_entitlement has_entitlement resolve_scan_owner
    grant_promo_entitlement-Kept w h =
        After-and_then (λ e db. I db × (is_entitled scan_id db ≡ e)) Kept I _
          (λ e w' h'.
            After-if Kept I e _ _ w' (λ q. h'.0)
              (λ q.
                After-and_then (λ o. Open env scan_id kind) Kept I _ grant_promo_to-Kept _
                  (After-query (λ o. Open env scan_id kind) I _ w' (h'.0, h'.1 ∙ q) h'.0)))
          _ (After-query (λ e db. I db × (is_entitled scan_id db ≡ e)) I _ w (h, refl) h)

  module _ (facts : StripePaymentFacts) where
    -- The invariant survives the row of a scan that is not entitled, for a new checkout session.
    abbrev pub AllowsStripe : Type 0
    AllowsStripe =
        (now : ℕ) (owner : Owner) (db : Db)
        → I db
        → is_entitled facts.scan_id db ≡ false
        → any (is_of_session facts.checkout_session_id) db.payments ≡ false
        → I (add_payment (stripe_payment now facts owner) db)

  module _ (facts : StripePaymentFacts) (allows : AllowsStripe facts) where
    abbrev Unpaid : Db → Type 0
    Unpaid db = I db × (is_entitled facts.scan_id db ≡ false)

    insert_stripe_payment-Kept :
        (owner : Owner) (now : ℕ) (db : Db)
        → Unpaid db
        → I (insert_stripe_payment facts owner now db)
    insert_stripe_payment-Kept owner now db h =
        elim (Bool-cases (any (is_of_session facts.checkout_session_id) db.payments)) [
          | inl e ↦ rw e h.0
          | inr e ↦ rw e (allows now owner db h.0 h.1 e)
        ]

    grant_stripe_to-Kept :
        (owner : Option Owner) (w : World)
        → Unpaid w.db
        → After Kept I (grant_stripe_to facts owner w)
    grant_stripe_to-Kept none w h = h.0
    grant_stripe_to-Kept (some owner) w h =
        After-and_then Kept Kept I _ (λ t w' h'. h') _
          (After-query Kept I _ w (insert_stripe_payment-Kept owner w.now w.db h) h.0)

    -- What every row of a checkout keeps, the grant keeps, whichever query fails.
    pub grant_stripe_entitlement-Kept :
        (w : World) → I w.db → After Kept I (grant_stripe_entitlement facts w)
    unfolding grant_stripe_entitlement has_entitlement resolve_scan_owner
    grant_stripe_entitlement-Kept w h =
        After-and_then (λ e db. I db × (is_entitled facts.scan_id db ≡ e)) Kept I _
          (λ e w' h'.
            After-if Kept I e _ _ w' (λ q. h'.0)
              (λ q.
                After-and_then (λ o. Unpaid) Kept I _ grant_stripe_to-Kept _
                  (After-query (λ o. Unpaid) I _ w' (h'.0, h'.1 ∙ q) h'.0)))
          _ (After-query (λ e db. I db × (is_entitled facts.scan_id db ≡ e)) I _ w (h, refl) h)
