-- ===== src/Pages/Tests.antt =====
-- Pages at concrete inputs.
use geo_readiness.Common.{◌≡◌, refl, true, none, List, [], ◌∷◌, ◌++◌, take, arith, inl}
use geo_readiness.Common.Text.{Text, codes, lower, split_on}
use geo_readiness.Errors.{ok}
use geo_readiness.Store.{paid, Db, calm, query}
use geo_readiness.Scans.Repository.{is_uuid, get_report_by_scan, get_scan_status}
use geo_readiness.Payments.{Env, above_zero, is_entitled, has_entitlement}
use geo_readiness.Payments.Stripe.{Stripe}
use geo_readiness.Payments.Checkout.{confirm_checkout_session, stripe_configured}
use geo_readiness.Report.Sample.{acme}
use geo_readiness.Pages.{Documents, full_report, redirect, not_found, report_page, scan_page}
use geo_readiness.Pages.Gate.{Cleared, report_page-Cleared}
use geo_readiness.Pages.Pending.{
  fresh, Event, polled, answered, unanswered, second, advance, on_event, on_events, view, stalled,
  scanning, is_final,
}
use geo_readiness.Pages.Pending.Stalls.{view-stalled}
use geo_readiness.Pages.History.{Entry, up, down, no_change, delta, baseline, remember, max_entries}
use geo_readiness.Pages.History.Recent.{remember_all, seen_after, remember_all-seen_after}

pages : Unit {0}
unfolding query lower split_on is_uuid get_report_by_scan get_scan_status is_entitled
    has_entitlement confirm_checkout_session stripe_configured report_page scan_page on_event
    on_events view is_final delta baseline remember seen_after
pages = tt

abbrev env : Env
env = record {
  promo_code = none;
  promo_code_limited = none;
  promo_limited_max = none;
  stripe_secret_key = none;
  stripe_webhook_secret = none;
  stripe_price = none;
  number = λ t. above_zero 2;
}

abbrev stripe : Stripe
stripe = record {
  construct_event = λ raw signature secret. none;
  retrieve = λ id. none;
  create = λ price scan_id success cancel. none;
}

abbrev scan_id : Text
scan_id = codes "0b7e3a52-9c1d-4e5f-8a6b-0123456789ab"

abbrev db : Db
db = record {
  payments = [];
  stripe_events = [];
  projects = [];
  scans = [];
  login_attempts = [];
  users = [];
  organizations = [];
  jobs = [];
  reports =
      record {
        id = codes "r";
        organization_id = codes "o";
        project_id = codes "p";
        depth = codes "full";
        scan_id = scan_id;
        content = codes "{}";
        created_at = 1;
      }
      ∷ [];
  credentials = [];
  members = [];
  sessions = [];
  verification_tokens = [];
}

abbrev bought : Db
bought = record db {
  payments =
      record {
        organization_id = codes "o";
        project_id = codes "p";
        scan_id = scan_id;
        provider = codes "stripe";
        product_code = codes "geo_readiness_full";
        amount = 4900;
        currency = codes "eur";
        status = paid;
        paid_at = 3;
        checkout_session_id = none;
        payment_intent_id = none;
        customer_id = none;
      }
      ∷ [];
}

abbrev docs : Documents
docs = record { example = acme; decode = λ t. acme }

test_gate :
    ((report_page docs env stripe scan_id none (calm 5 db)).0
      ≡ ok (redirect (codes "/scan/" ++ scan_id)))
    × ((report_page docs env stripe (codes "x") none (calm 5 db)).0 ≡ ok not_found)
    × ((scan_page docs scan_id (calm 5 bought)).0 ≡ ok (redirect (codes "/report/" ++ scan_id)))
unfolding pages
test_gate = (refl, refl, refl)

shown_page :
    (report_page docs env stripe scan_id none (calm 5 bought)).0 ≡ ok (full_report acme scan_id)
unfolding pages
shown_page = refl

report_page-Cleared_example : (is_uuid scan_id ≡ true) × Cleared env stripe scan_id none bought
unfolding pages
report_page-Cleared_example =
    report_page-Cleared docs env stripe scan_id none (calm 5 bought) acme scan_id refl shown_page

abbrev silence : List Event
silence =
    polled unanswered
    ∷ second
    ∷ polled unanswered
    ∷ advance
    ∷ polled unanswered
    ∷ polled unanswered
    ∷ polled unanswered
    ∷ []

test_late :
    view (
      on_events
        (polled (answered (codes "completed")) ∷ polled (answered (codes "running")) ∷ [])
        (fresh (codes "running")))
    ≡ scanning
unfolding pages
test_late = refl

view-stalled_example : view (on_events silence (fresh (codes "queued"))) ≡ stalled
unfolding pages
view-stalled_example = view-stalled (fresh (codes "queued")) silence refl refl (inl (omega arith))

abbrev entry : Text → Entry
entry id = record { scan_id = id; at = []; overall = 500000; components = [] }

abbrev visits : List Entry
visits = entry (codes "a") ∷ entry (codes "b") ∷ entry (codes "a") ∷ []

test_history : remember_all visits [] ≡ entry (codes "a") ∷ entry (codes "b") ∷ []
unfolding pages
test_history = refl

test_delta :
    (delta 615000 604000 ≡ up 2) × (delta 10000 30000 ≡ down 2) × (delta 14000 6000 ≡ no_change)
unfolding pages
test_delta = (refl, refl, refl)

remember_all-seen_after_example : remember_all visits [] ≡ take max_entries (seen_after visits [])
remember_all-seen_after_example = remember_all-seen_after visits
