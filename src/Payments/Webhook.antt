-- ===== src/Payments/Webhook.antt =====
-- POST /api/stripe/webhook: apps/web/app/api/stripe/webhook/route.ts. A query that throws leaves the
-- handler with the error, which the server answers with the status 500. The text of a failed
-- signature check is left out of its answer.
pub mod Redelivery
pub mod Unlocks
use geo_readiness.Common.{
  ℕ, Bool, true, false, Option, none, some, List, [], ◌∷◌, map, any, not, if◌then◌else◌,
}
use geo_readiness.Common.Text.{Text, codes, text_eq, is_empty}
use geo_readiness.Http.{Response, answer_with, refuse, received, duplicate}
use geo_readiness.Store.{Db, M, World, return, query, execute, ◌>>=◌, ◌>>◌, StripeEvent}
use geo_readiness.Payments.{Env, StripePaymentFacts, grant_stripe_entitlement}
use geo_readiness.Payments.Stripe.{Stripe, Event, Session, given, get_stripe, scan_of, facts_of}

pub record Delivery : Type 0 where
  pub signature : Option Text
  pub raw : Text

abbrev pub is_event : Text → StripeEvent → Bool
is_event id e = text_eq e.event_id id

abbrev pub received_row : Event → StripeEvent
received_row event = record {
  event_id = event.id;
  event_type = event.type;
  event_status = codes "received";
  processed_at = none;
}

-- `INSERT … ON CONFLICT (stripe_event_id) DO NOTHING RETURNING id`: whether a row came back.
unfoldable pub claim_event : Event → M Bool
claim_event event = query (λ now db.
    if any (is_event event.id) db.stripe_events
    then (false, db)
    else (true, record db { stripe_events = received_row event ∷ db.stripe_events }))

abbrev pub set_status : Text → Text → ℕ → StripeEvent → StripeEvent
set_status id status now e =
    if is_event id e then record e { event_status = status; processed_at = some now } else e

unfoldable pub finish_event : Event → Text → M (Unit {0})
finish_event event status =
    execute (λ now db. record db {
      stripe_events = map (set_status event.id status now) db.stripe_events;
    })

-- An empty scan id is none.
abbrev pub settle_scan : Session → Option Text → M Text
settle_scan session none = return (codes "missing_scan_id")
settle_scan session (some scan_id) = do
  granted ← grant_stripe_entitlement (facts_of scan_id session)
  return (if granted then codes "processed" else codes "unknown_scan")

unfoldable pub settle_event : Event → M Text
settle_event event =
    if text_eq event.type (codes "checkout.session.completed")
    then settle_scan event.object (given (scan_of event.object))
    else return (codes "ignored")

unfoldable pub process_event : Event → M Response
process_event event = do
  claimed ← claim_event event
  if not claimed then return (answer_with 200 duplicate) else do
    status ← settle_event event
    finish_event event status
    return (answer_with 200 received)

-- The signature is checked by the client, which may fail to be there.
unfoldable pub verify : Env → Stripe → Text → Text → Text → Option Event
verify env stripe secret signature raw = elim (get_stripe env stripe) [
  | none ↦ none
  | some client ↦ client.construct_event raw signature secret
]

abbrev pub process_verified : Option Event → M Response
process_verified none = return (refuse 400 (codes "invalid_signature"))
process_verified (some event) = process_event event

abbrev check_signature : Env → Stripe → Delivery → Text → Option Text → M Response
check_signature env stripe d secret none = return (refuse 400 (codes "missing_signature"))
check_signature env stripe d secret (some signature) =
    process_verified (verify env stripe secret signature d.raw)

abbrev check_secret : Env → Stripe → Delivery → Option Text → M Response
check_secret env stripe d none = return (refuse 503 (codes "not_configured"))
check_secret env stripe d (some secret) = check_signature env stripe d secret (given d.signature)

unfoldable pub post_webhook : Env → Stripe → Delivery → M Response
post_webhook env stripe d = check_secret env stripe d (given env.stripe_webhook_secret)
