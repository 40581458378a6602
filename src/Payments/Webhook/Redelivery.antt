-- ===== src/Payments/Webhook/Redelivery.antt =====
-- The ledger of events of apps/web/app/api/stripe/webhook/route.ts: what a second delivery of an
-- event comes to, also behind a delivery that threw.
use geo_readiness.Common.{
  ℕ, true, false, ◌≡◌, refl, ◌∙◌, Option, none, some, List, [], ◌∷◌, map, any, not, Bool-cases, inl,
  inr,
}
use geo_readiness.Common.Text.{Text, codes, text_eq, text_eq_refl}
use geo_readiness.Errors.{ok}
use geo_readiness.Http.{answer_with, duplicate}
use geo_readiness.Store.{calm, Db, World, query, StripeEvent, faulty}
use geo_readiness.Store.Logic.{After, After-and_then, After-query, After-if, After-end}
use geo_readiness.Payments.{Env}
use geo_readiness.Payments.Kept.{grant_stripe_entitlement-Kept}
use geo_readiness.Payments.Stripe.{Stripe, Event, given, scan_of, facts_of}
use geo_readiness.Payments.Webhook.{
  Delivery, post_webhook, process_event, claim_event, finish_event, settle_event, settle_scan,
  is_event, set_status, verify,
}

-- The delivery carries the event, signed with the secret.
pub record Carries (env : Env) (stripe : Stripe) (d : Delivery) (event : Event) : Type 0 where
  pub secret : Text
  pub signature : Text
  pub has_secret : given env.stripe_webhook_secret ≡ some secret
  pub has_signature : given d.signature ≡ some signature
  pub is_verified : verify env stripe secret signature d.raw ≡ some event

pub post_webhook-Carries :
    (env : Env) (stripe : Stripe) (d : Delivery) (event : Event)
    → Carries env stripe d event
    → (w : World) → post_webhook env stripe d w ≡ process_event event w
unfolding post_webhook
post_webhook-Carries env stripe d event c w =
    rw c.has_secret (rw c.has_signature (rw c.is_verified refl))

module _ (event : Event) where
  abbrev pub Known : Db → Type 0
  Known db = any (is_event event.id) db.stripe_events ≡ true

  process_event-Known :
      (now : ℕ) (db : Db)
      → Known db
      → process_event event (calm now db) ≡ (ok (answer_with 200 duplicate), calm now db)
  unfolding process_event claim_event query
  process_event-Known now db h = rw h refl

  any-set_status :
      (id status : Text) (now : ℕ) (es : List StripeEvent)
      → any (is_event id) (map (set_status event.id status now) es) ≡ any (is_event id) es
  any-set_status id status now [] = refl
  any-set_status id status now (e ∷ es) = elim (Bool-cases (is_event event.id e)) [
    | inl q ↦ rw q (rw (any-set_status id status now es) refl)
    | inr q ↦ rw q (rw (any-set_status id status now es) refl)
  ]

  abbrev Stays : {A : Type 0} → A → Db → Type 0
  Stays a = Known

  settle_scan-Known :
      (o : Option Text) (w : World) → Known w.db → After Stays Known (settle_scan event.object o w)
  settle_scan-Known none w h = h
  settle_scan-Known (some scan_id) w h =
      After-and_then Stays Stays Known _ (λ g w' h'. h') _
        (grant_stripe_entitlement-Kept Known (facts_of scan_id event.object)
          (λ now owner db k free fresh. k) w h)

  settle_event-Known : (w : World) → Known w.db → After Stays Known (settle_event event w)
  unfolding settle_event
  settle_event-Known w h =
      After-if Stays Known (text_eq event.type (codes "checkout.session.completed")) _ _ w
        (λ e. settle_scan-Known (given (scan_of event.object)) w h) (λ e. h)

  finish_event-Known :
      (status : Text) (w : World) → Known w.db → After Stays Known (finish_event event status w)
  unfolding finish_event
  finish_event-Known status w h =
      After-query Stays Known _ w (any-set_status event.id status w.now w.db.stripe_events ∙ h) h

  claim_event-Known :
      (w : World) → faulty w.faults ≡ false → After Stays Known (claim_event event w)
  unfolding claim_event query
  claim_event-Known w h = rw h (elim (Bool-cases (any (is_event event.id) w.db.stripe_events)) [
    | inl e ↦ rw e e
    | inr e ↦ rw e (rw (text_eq_refl event.id) refl)
  ])

  -- If the claim goes through, the event is known afterwards, whatever else fails.
  process_event-Claimed : (w : World) → faulty w.faults ≡ false → Known (process_event event w).1.db
  unfolding process_event
  process_event-Claimed w h = After-end Known (process_event event w) (
      After-and_then Stays Stays Known _
        (λ claimed w1 h1.
          After-if Stays Known (not claimed) _ _ w1 (λ e. h1)
            (λ e.
              After-and_then Stays Stays Known _
                (λ status w2 h2.
                  After-and_then Stays Stays Known _ (λ t w3 h3. h3) _
                    (finish_event-Known status w2 h2))
                _ (settle_event-Known w1 h1)))
        _ (claim_event-Known w h))

-- When the claim of an event went through, and whichever other query of that delivery failed, a
-- later delivery of the event whose queries go through is answered as a duplicate and changes no
-- table.
pub post_webhook-again :
    (env : Env) (stripe : Stripe) (first second : Delivery) (event : Event)
    → Carries env stripe first event
    → Carries env stripe second event
    → (w : World) → faulty w.faults ≡ false
    → (later : ℕ)
    → post_webhook env stripe second (calm later (post_webhook env stripe first w).1.db)
      ≡ (ok (answer_with 200 duplicate), calm later (post_webhook env stripe first w).1.db)
post_webhook-again env stripe first second event c c' w h later =
    rw (post_webhook-Carries env stripe first event c w) (
      post_webhook-Carries env stripe second event c' (calm later (process_event event w).1.db)
      ∙ process_event-Known event later (process_event event w).1.db
          (process_event-Claimed event w h))
