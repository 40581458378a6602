-- ===== src/Payments/Tests.antt =====
-- The payments at concrete inputs.
use geo_readiness.Common.{
  ◌≤◌, ◌≡◌, refl, true, false, none, some, List, [], ◌∷◌, arith, if◌then◌else◌, ◌||◌, is_some,
}
use geo_readiness.Common.Text.{Text, codes, text_eq, lower, trim}
use geo_readiness.Errors.{ok, err, query_failed}
use geo_readiness.Http.{answer_with, refuse, received, duplicate}
use geo_readiness.Store.{calm, Scan, Db, query}
use geo_readiness.Payments.{
  Env, above_zero, limited, unlimited, StripePaymentFacts, limited_promo_max, code_matches,
  classify_promo_code, limited_used, limited_promo_usage, limited_promo_limit_reached, is_entitled,
  has_entitlement, owner_of, resolve_scan_owner, grant_promo_entitlement, grant_stripe_entitlement,
}
use geo_readiness.Payments.Requests.{Request, redeem, checkout, serve_grant, serve_grants}
use geo_readiness.Payments.Cap.{limited_used-serve_grants}
use geo_readiness.Payments.Once.{times_paid, times_booked, times_paid-serve_grants}
use geo_readiness.Payments.Outcomes.{
  promo_db, stripe_db, is_entitled-promo_db, grant_stripe_entitlement-calm, is_entitled-stripe_db,
}
use geo_readiness.Payments.Stripe.{
  Stripe, Event, Session, as_id, get_stripe, scan_of, facts_of, expanded,
}
use geo_readiness.Payments.Webhook.{
  Delivery, post_webhook, process_event, claim_event, finish_event, settle_event, verify,
}
use geo_readiness.Payments.Webhook.Redelivery.{Carries, post_webhook-again}
use geo_readiness.Payments.Webhook.Unlocks.{
  Completes, cut_world, post_webhook-unlocks, post_webhook-loses,
}
use geo_readiness.Payments.Checkout.{
  confirm_checkout_session, stripe_configured, Confirmed, confirm_checkout_session-Confirmed,
}

runs : Unit {0}
unfolding query limited_promo_max code_matches classify_promo_code limited_used limited_promo_usage
    limited_promo_limit_reached is_entitled has_entitlement owner_of resolve_scan_owner
    grant_promo_entitlement grant_stripe_entitlement serve_grant serve_grants times_paid
    times_booked as_id get_stripe scan_of facts_of post_webhook process_event claim_event
    finish_event settle_event verify confirm_checkout_session stripe_configured lower trim
runs = tt

abbrev env : Env
env = record {
  promo_code = some (codes " LAUNCH ");
  promo_code_limited = some (codes "VIP");
  promo_limited_max = some (codes "2");
  stripe_secret_key = some (codes "sk");
  stripe_webhook_secret = some (codes "whsec");
  stripe_price = some (codes "price");
  number = λ t. above_zero 2;
}

abbrev scan_row : Text → Scan
scan_row id = record {
  id = id;
  project_id = codes "p";
  scan_type = codes "quick";
  methodology_version = codes "geo-readiness-v2";
  status = codes "completed";
  max_pages = 12;
  max_browser_renders = 2;
  error_code = none;
  page_count = 3;
  requested_at = 0;
}

abbrev db : Db
db = record {
  payments = [];
  stripe_events = [];
  projects =
      record {
        id = codes "p";
        organization_id = codes "o";
        canonical_domain = codes "a.com";
        status = codes "active";
      }
      ∷ [];
  scans = scan_row (codes "a") ∷ scan_row (codes "b") ∷ scan_row (codes "c") ∷ [];
  login_attempts = [];
  users = [];
  organizations = [];
  jobs = [];
  reports = [];
  credentials = [];
  members = [];
  sessions = [];
  verification_tokens = [];
}

abbrev session : Session
session = record {
  id = codes "cs_1";
  payment_status = codes "paid";
  client_reference_id = some (codes "a");
  metadata_scan_id = none;
  payment_intent = some (expanded (codes "pi_1"));
  customer = none;
  amount_total = some 4900;
  currency = some (codes "EUR");
}

abbrev event : Event
event = record { id = codes "evt_1"; type = codes "checkout.session.completed"; object = session }

abbrev stripe : Stripe
stripe = record {
  construct_event =
      λ raw signature secret. if text_eq signature (codes "good") then some event else none;
  retrieve = λ id. if text_eq id (codes "cs_1") then some session else none;
  create = λ price scan_id success cancel. some (some (codes "https://pay"));
}

abbrev delivery : Delivery
delivery = record { signature = some (codes "good"); raw = codes "raw" }

abbrev facts : StripePaymentFacts
facts = record {
  scan_id = codes "b";
  checkout_session_id = codes "cs_2";
  payment_intent_id = none;
  customer_id = none;
  amount = 4900;
  currency = codes "EUR";
}

abbrev requests : List Request
requests =
    redeem (codes "a") limited
    ∷ redeem (codes "A") unlimited
    ∷ checkout facts
    ∷ redeem (codes "c") limited
    ∷ []

code_tests :
    (classify_promo_code env (codes "LAUNCH") ≡ some unlimited)
    × (classify_promo_code env (codes "VIP ") ≡ some limited)
    × (classify_promo_code env (codes "vip") ≡ none)
    × (classify_promo_code env [] ≡ none)
unfolding runs
code_tests = (refl, refl, refl, refl)

webhook_tests :
    ((post_webhook env stripe (record { signature = none; raw = [] }) (calm 5 db)).0
      ≡ ok (refuse 400 (codes "missing_signature")))
    × ((post_webhook env stripe (record { signature = some (codes "bad"); raw = [] }) (calm 5 db)).0
        ≡ ok (refuse 400 (codes "invalid_signature")))
    × ((confirm_checkout_session env stripe (codes "a") (codes "cs_1") (calm 5 db)).0 ≡ ok true)
    × ((confirm_checkout_session env stripe (codes "b") (codes "cs_1") (calm 5 db)).0 ≡ ok false)
unfolding runs
webhook_tests = (refl, refl, refl, refl)

limited_used-serve_grants_example :
    limited_used (serve_grants env requests (calm 5 db)).db ≤ limited_promo_max env
unfolding runs
limited_used-serve_grants_example = limited_used-serve_grants env requests (calm 5 db) (omega arith)

times_paid-serve_grants_example :
    times_paid (codes "a") (serve_grants env requests (calm 5 db)).db ≤ 1
unfolding runs
times_paid-serve_grants_example =
    times_paid-serve_grants env (codes "a") requests (calm 5 db) (omega arith)

is_entitled-promo_db_example :
    is_entitled (codes "a") (promo_db 5 env (codes "a") limited db) ≡ true
unfolding runs
is_entitled-promo_db_example = is_entitled-promo_db env 5 (codes "a") limited db

grant_stripe_entitlement-calm_example :
    grant_stripe_entitlement facts (calm 5 db) ≡ (ok true, calm 5 (stripe_db 5 facts db))
unfolding runs
grant_stripe_entitlement-calm_example = grant_stripe_entitlement-calm 5 facts db

is_entitled-stripe_db_example : is_entitled (codes "b") (stripe_db 5 facts db) ≡ true
unfolding runs
is_entitled-stripe_db_example = is_entitled-stripe_db 5 facts db refl

carries : Carries env stripe delivery event
unfolding runs
carries = record {
  secret = codes "whsec";
  signature = codes "good";
  has_secret = refl;
  has_signature = refl;
  is_verified = refl;
}

completes : Completes event (codes "a")
unfolding runs
completes = record { has_type = refl; has_scan = refl }

post_webhook-again_example :
    post_webhook env stripe delivery (calm 6 (post_webhook env stripe delivery (calm 5 db)).1.db)
    ≡ (ok (answer_with 200 duplicate), calm 6 (post_webhook env stripe delivery (calm 5 db)).1.db)
post_webhook-again_example =
    post_webhook-again env stripe delivery delivery event carries carries (calm 5 db) refl 6

post_webhook-unlocks_example :
    ((post_webhook env stripe delivery (calm 5 db)).0 ≡ ok (answer_with 200 received))
    × (is_entitled (codes "a") (post_webhook env stripe delivery (calm 5 db)).1.db
        ≡ is_entitled (codes "a") db || is_some (owner_of (codes "a") db))
post_webhook-unlocks_example =
    post_webhook-unlocks env stripe delivery event (codes "a") carries completes 5 db refl refl

post_webhook-loses_example :
    ((post_webhook env stripe delivery (cut_world 5 db)).0 ≡ err query_failed)
    × ((post_webhook env stripe delivery
          (calm 6 (post_webhook env stripe delivery (cut_world 5 db)).1.db)).0
        ≡ ok (answer_with 200 duplicate))
    × (is_entitled
          (codes "a")
          (post_webhook env stripe delivery
            (calm 6 (post_webhook env stripe delivery (cut_world 5 db)).1.db)).1.db
        ≡ is_entitled (codes "a") db)
post_webhook-loses_example =
    post_webhook-loses env stripe delivery delivery event (codes "a") carries carries completes 5 6
      db refl

confirm_checkout_session-Confirmed_example :
    Confirmed env stripe
      (codes "a")
      (codes "cs_1")
      (calm 5 db)
      (confirm_checkout_session env stripe (codes "a") (codes "cs_1") (calm 5 db))
confirm_checkout_session-Confirmed_example =
    confirm_checkout_session-Confirmed env stripe (codes "a") (codes "cs_1") (calm 5 db)
