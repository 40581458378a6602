-- ===== src/Api/Unlock/Tests.antt =====
-- A redeemed code and the page behind it, at a concrete input.
use geo_readiness.Common.{◌≡◌, refl, none, some, [], ◌∷◌, if◌then◌else◌}
use geo_readiness.Common.Text.{Text, codes, trim, lower, split_on, text_eq}
use geo_readiness.Errors.{ok}
use geo_readiness.Store.{Db, calm, query}
use geo_readiness.Auth.Origin.{Web, Headers, passes_origin, client_ip_hash, is_same_origin}
use geo_readiness.Scans.Limiter.{allow, times_of, set_times, sweep}
use geo_readiness.Scans.Repository.{is_uuid, get_report_by_scan}
use geo_readiness.Payments.{
  Env, above_zero, code_matches, classify_promo_code, has_entitlement, is_entitled,
  resolve_scan_owner, owner_of, grant_promo_entitlement, limited_promo_usage,
  limited_promo_limit_reached, limited_promo_max, limited_used,
}
use geo_readiness.Payments.Stripe.{Stripe}
use geo_readiness.Report.Sample.{acme}
use geo_readiness.Pages.{Documents, full_report, report_page}
use geo_readiness.Api.Unlock.{Request, text, redeem_code, post_unlock}
use geo_readiness.Api.Unlock.Shows.{report_page-post_unlock}

unlocking : Unit {0}
unfolding query passes_origin client_ip_hash is_same_origin allow times_of set_times sweep is_uuid
    code_matches classify_promo_code has_entitlement is_entitled resolve_scan_owner owner_of
    grant_promo_entitlement limited_promo_usage limited_promo_limit_reached limited_promo_max
    limited_used redeem_code post_unlock trim lower split_on get_report_by_scan
unlocking = tt

abbrev env : Env
env = record {
  promo_code = some (codes "LAUNCH");
  promo_code_limited = none;
  promo_limited_max = none;
  stripe_secret_key = none;
  stripe_webhook_secret = none;
  stripe_price = none;
  number = λ t. above_zero 2;
}

abbrev web : Web
web = record {
  url_host = λ t. if text_eq t (codes "https://a.com") then some (codes "a.com") else none;
  url_hostname = λ t. none;
  hash_ip = λ t. t;
}

abbrev headers : Headers
headers = record {
  host = some (codes "a.com");
  origin = some (codes "https://a.com");
  referer = none;
  forwarded_for = none;
}

abbrev stripe : Stripe
stripe = record {
  construct_event = λ raw signature secret. none;
  retrieve = λ id. none;
  create = λ price scan_id success cancel. none;
}

abbrev scan_id : Text
scan_id = codes "0b7e3a52-9c1d-4e5f-8a6b-0123456789ab"

abbrev db : Db
db = record {
  payments = [];
  stripe_events = [];
  projects =
      record {
        id = codes "p";
        organization_id = codes "o";
        canonical_domain = codes "a.com";
        status = codes "active";
      }
      ∷ [];
  scans =
      record {
        id = scan_id;
        project_id = codes "p";
        scan_type = codes "quick";
        methodology_version = [];
        status = codes "completed";
        max_pages = 12;
        max_browser_renders = 2;
        error_code = none;
        page_count = 3;
        requested_at = 0;
      }
      ∷ [];
  login_attempts = [];
  users = [];
  organizations = [];
  jobs = [];
  reports =
      record {
        id = codes "r";
        organization_id = codes "o";
        project_id = codes "p";
        depth = codes "full";
        scan_id = scan_id;
        content = codes "{}";
        created_at = 1;
      }
      ∷ [];
  credentials = [];
  members = [];
  sessions = [];
  verification_tokens = [];
}

abbrev request : Request
request = record { headers = headers; body = text (codes "LAUNCH") }

abbrev docs : Documents
docs = record { example = acme; decode = λ t. acme }

redeemed : (post_unlock env web request scan_id [] (calm 5 db)).0.0.status ≡ 200
unfolding unlocking
redeemed = refl

stored :
    (get_report_by_scan scan_id
      (calm 9 (post_unlock env web request scan_id [] (calm 5 db)).0.1.db)).0
    ≡ ok (some (codes "{}"))
unfolding unlocking
stored = refl

report_page-post_unlock_example :
    (report_page docs env stripe scan_id none
      (calm 9 (post_unlock env web request scan_id [] (calm 5 db)).0.1.db)).0
    ≡ ok (full_report acme scan_id)
report_page-post_unlock_example =
    report_page-post_unlock env web request scan_id [] (calm 5 db) docs stripe none 9 (codes "{}")
      redeemed stored
