-- ===== src/Api/Checkout/Tests.antt =====
-- The checkout handler at concrete inputs.
use geo_readiness.Common.{◌⊎◌, ◌≡◌, refl, none, some, [], if◌then◌else◌}
use geo_readiness.Common.Text.{Text, codes, text_eq, lower, split_on}
use geo_readiness.Http.{refuse}
use geo_readiness.Store.{Db, calm, query}
use geo_readiness.Auth.Origin.{Web, Headers, passes_origin, is_same_origin}
use geo_readiness.Scans.Repository.{is_uuid}
use geo_readiness.Payments.{Env, above_zero, is_entitled, has_entitlement}
use geo_readiness.Payments.Stripe.{Stripe, get_stripe}
use geo_readiness.Payments.Checkout.{create_checkout_session}
use geo_readiness.Api.Unlock.{Request, text, no_text}
use geo_readiness.Api.Checkout.{check_out, post_checkout}
use geo_readiness.Api.Checkout.Unpaid.{link_in, Opened, post_checkout-Opened}

checkouts : Unit {0}
unfolding query lower split_on passes_origin is_same_origin is_uuid is_entitled has_entitlement
    get_stripe create_checkout_session check_out post_checkout
checkouts = tt

abbrev env : Env
env = record {
  promo_code = none;
  promo_code_limited = none;
  promo_limited_max = none;
  stripe_secret_key = some (codes "sk");
  stripe_webhook_secret = none;
  stripe_price = some (codes "price");
  number = λ t. above_zero 2;
}

abbrev stripe : Stripe
stripe = record {
  construct_event = λ raw signature secret. none;
  retrieve = λ id. none;
  create = λ price scan_id success cancel. some (some (codes "https://pay"));
}

abbrev web : Web
web = record {
  url_host = λ t. if text_eq t (codes "https://a.com") then some (codes "a.com") else none;
  url_hostname = λ t. none;
  hash_ip = λ t. t;
}

abbrev headers : Headers
headers = record {
  host = some (codes "a.com");
  origin = some (codes "https://a.com");
  referer = none;
  forwarded_for = none;
}

abbrev db : Db
db = record {
  payments = [];
  stripe_events = [];
  projects = [];
  scans = [];
  login_attempts = [];
  users = [];
  organizations = [];
  jobs = [];
  reports = [];
  credentials = [];
  members = [];
  sessions = [];
  verification_tokens = [];
}

abbrev request : Request
request = record { headers = headers; body = text (codes "0b7e3a52-9c1d-4e5f-8a6b-0123456789ab") }

test_refusals :
    ((post_checkout env stripe web (record request { body = no_text }) (calm 5 db)).0
      ≡ refuse 404 (codes "not_found"))
    × ((post_checkout (record env { stripe_price = none }) stripe web request (calm 5 db)).0
        ≡ refuse 503 (codes "not_configured"))
    × ((post_checkout env stripe web
          (record request { headers = record headers { origin = none } })
          (calm 5 db)).0
        ≡ refuse 403 (codes "forbidden"))
unfolding checkouts
test_refusals = (refl, refl, refl)

test_link :
    link_in (post_checkout env stripe web request (calm 5 db)).0.body ≡ some (codes "https://pay")
unfolding checkouts
test_link = refl

post_checkout-Opened_example :
    ((post_checkout env stripe web request (calm 5 db)).1.db ≡ db)
    × ((link_in (post_checkout env stripe web request (calm 5 db)).0.body ≡ none)
        ⊎ ((link : Text) × (link_in (post_checkout env stripe web request (calm 5 db)).0.body
              ≡ some link)
            × Opened env stripe web request db link))
post_checkout-Opened_example = post_checkout-Opened env stripe web request (calm 5 db)
