-- ===== src/Payments/Webhook/Unlocks.antt =====
-- A completed checkout in apps/web/app/api/stripe/webhook/route.ts: the scan that it unlocks, and
-- the one that it does not where a query fails behind the claim of the event.
use geo_readiness.Common.{
  ℕ, true, false, ◌≡◌, refl, some, [], ◌∷◌, map, any, if◌then◌else◌, ◌||◌, is_some,
}
use geo_readiness.Common.Text.{Text, codes, text_eq}
use geo_readiness.Errors.{ok, err, query_failed}
use geo_readiness.Http.{answer_with, received, duplicate}
use geo_readiness.Store.{calm, Db, World, query}
use geo_readiness.Payments.{
  Env, grant_stripe_entitlement, is_entitled, is_of_session, owner_of, has_entitlement,
}
use geo_readiness.Payments.Outcomes.{
  stripe_db, grant_stripe_entitlement-calm, is_entitled-stripe_db,
}
use geo_readiness.Payments.Stripe.{Stripe, Event, given, scan_of, facts_of}
use geo_readiness.Payments.Webhook.{
  Delivery, post_webhook, process_event, claim_event, finish_event, settle_event, is_event,
  received_row, set_status,
}
use geo_readiness.Payments.Webhook.Redelivery.{Carries, post_webhook-Carries, post_webhook-again}

-- A completed checkout of a scan.
pub record Completes (event : Event) (scan_id : Text) : Type 0 where
  pub has_type : text_eq event.type (codes "checkout.session.completed") ≡ true
  pub has_scan : given (scan_of event.object) ≡ some scan_id

abbrev claimed_db : Event → Db → Db
claimed_db event db = record db { stripe_events = received_row event ∷ db.stripe_events }

module _ (event : Event) (scan_id : Text) (c : Completes event scan_id) (now : ℕ) (db : Db)
    (new : any (is_event event.id) db.stripe_events ≡ false) where
  process_event-cut :
      process_event event (record { now = now; db = db; faults = false ∷ true ∷ [] })
      ≡ (err query_failed, calm now (claimed_db event db))
  unfolding process_event claim_event settle_event grant_stripe_entitlement has_entitlement query
  process_event-cut = rw new (rw c.has_type (rw c.has_scan refl))

  abbrev paid_db : Db
  paid_db = stripe_db now (facts_of scan_id event.object) (claimed_db event db)

  abbrev outcome : Text
  outcome =
      if is_entitled scan_id db || is_some (owner_of scan_id db)
      then codes "processed"
      else codes "unknown_scan"

  abbrev finished_db : Db
  finished_db = record paid_db {
    stripe_events = map (set_status event.id outcome now) paid_db.stripe_events;
  }

  process_event-paid :
      process_event event (calm now db) ≡ (ok (answer_with 200 received), calm now finished_db)
  unfolding process_event claim_event settle_event finish_event query facts_of is_entitled owner_of
  process_event-paid = rw new (
      rw c.has_type (
        rw c.has_scan (
          rw
            (grant_stripe_entitlement-calm now (facts_of scan_id event.object)
              (claimed_db event db))
            refl)))

  finished-is_entitled :
      any (is_of_session event.object.id) db.payments ≡ false
      → is_entitled scan_id finished_db ≡ is_entitled scan_id db || is_some (owner_of scan_id db)
  unfolding facts_of is_entitled owner_of
  finished-is_entitled fresh =
      is_entitled-stripe_db now (facts_of scan_id event.object) (claimed_db event db) fresh

-- The first delivery of a completed checkout, with every query going through and a checkout
-- session that has no row, is answered with the status 200, and then the scan is entitled exactly
-- if it was or has an owner.
pub post_webhook-unlocks :
    (env : Env) (stripe : Stripe) (d : Delivery) (event : Event) (scan_id : Text)
    → Carries env stripe d event
    → Completes event scan_id
    → (now : ℕ) (db : Db) → any (is_event event.id) db.stripe_events ≡ false
    → any (is_of_session event.object.id) db.payments ≡ false
    → ((post_webhook env stripe d (calm now db)).0 ≡ ok (answer_with 200 received))
      × (is_entitled scan_id (post_webhook env stripe d (calm now db)).1.db
          ≡ is_entitled scan_id db || is_some (owner_of scan_id db))
post_webhook-unlocks env stripe d event scan_id carries c now db new fresh =
    rw (post_webhook-Carries env stripe d event carries (calm now db)) (
      rw (process_event-paid event scan_id c now db new)
        (refl, finished-is_entitled event scan_id c now db new fresh))

abbrev pub cut_world : ℕ → Db → World
cut_world now db = record { now = now; db = db; faults = false ∷ true ∷ [] }

-- If the query behind the claim fails at the first delivery of a completed checkout, that delivery
-- throws, the next one, with every query going through, is answered as a duplicate with the status
-- 200, and afterwards the scan is entitled exactly if it was before.
pub post_webhook-loses :
    (env : Env) (stripe : Stripe) (first second : Delivery) (event : Event) (scan_id : Text)
    → Carries env stripe first event
    → Carries env stripe second event
    → Completes event scan_id
    → (now later : ℕ) (db : Db) → any (is_event event.id) db.stripe_events ≡ false
    → ((post_webhook env stripe first (cut_world now db)).0 ≡ err query_failed)
      × ((post_webhook env stripe second
            (calm later (post_webhook env stripe first (cut_world now db)).1.db)).0
          ≡ ok (answer_with 200 duplicate))
      × (is_entitled scan_id
            (post_webhook env stripe second
              (calm later (post_webhook env stripe first (cut_world now db)).1.db)).1.db
          ≡ is_entitled scan_id db)
unfolding is_entitled
post_webhook-loses env stripe first second event scan_id carries again c now later db new =
    rw
      (post_webhook-again env stripe first second event carries again (cut_world now db) refl later)
      (rw (post_webhook-Carries env stripe first event carries (cut_world now db))
        (rw (process_event-cut event scan_id c now db new) (refl, refl, refl)))
