-- ===== src/Api/Tests.antt =====
-- Handlers at concrete inputs.
use geo_readiness.Common.{if◌then◌else◌, ◌≡◌, refl, true, false, none, some, [], ◌∷◌}
use geo_readiness.Common.Text.{Text, codes, trim, lower, split_on, text_eq}
use geo_readiness.Http.{refuse, answer_with, done}
use geo_readiness.Store.{Db, calm, query}
use geo_readiness.Auth.Origin.{
  Web, Headers, passes_origin, client_ip_hash, is_same_origin, is_csrf_token_valid,
}
use geo_readiness.Scans.Limiter.{allow, times_of, set_times, sweep}
use geo_readiness.Scans.Repository.{is_uuid}
use geo_readiness.Payments.{
  Env, above_zero, code_matches, classify_promo_code, has_entitlement, is_entitled,
  resolve_scan_owner, owner_of, grant_promo_entitlement, limited_promo_usage,
  limited_promo_limit_reached, limited_promo_max, limited_used,
}
use geo_readiness.Api.Unlock.{Request, text, no_text, unreadable, redeem_code, post_unlock}
use geo_readiness.Api.Unlock.Sound.{Redeemed, post_unlock-Redeemed}
use geo_readiness.Common.Text.{before}
use geo_readiness.Common.Patterns.{is_dotted_quad}
use geo_readiness.Errors.{ok}
use geo_readiness.Http.{started, progress}
use geo_readiness.Store.{with_transaction}
use geo_readiness.Scans.Domain.{
  normalize_domain, normalize_text, check_host, is_rejected, strip_point,
}
use geo_readiness.Scans.Repository.{
  Ids, create_quick_scan, ensure_anonymous_org, upsert_project, recent_scan, get_scan_status,
}
use geo_readiness.Api.QuickScan.{submit_body, post_quick_scan, get_scan}

handlers : Unit {0}
unfolding query passes_origin client_ip_hash is_same_origin is_csrf_token_valid allow times_of
    set_times sweep is_uuid code_matches classify_promo_code has_entitlement is_entitled
    resolve_scan_owner owner_of grant_promo_entitlement limited_promo_usage
    limited_promo_limit_reached limited_promo_max limited_used redeem_code post_unlock trim lower
    split_on
handlers = tt

abbrev env : Env
env = record {
  promo_code = some (codes "LAUNCH");
  promo_code_limited = some (codes "VIP");
  promo_limited_max = some (codes "2");
  stripe_secret_key = none;
  stripe_webhook_secret = none;
  stripe_price = none;
  number = λ t. above_zero 2;
}

abbrev web : Web
web = record {
  url_host = λ t. if text_eq t (codes "https://a.com") then some (codes "a.com") else none;
  url_hostname = λ t. none;
  hash_ip = λ t. t;
}

abbrev headers : Headers
headers = record {
  host = some (codes "a.com");
  origin = some (codes "https://a.com");
  referer = none;
  forwarded_for = some (codes "1.2.3.4, 5.6.7.8");
}

abbrev foreign : Headers
foreign = record headers { origin = some (codes "https://b.com") }

abbrev scan_id : Text
scan_id = codes "0b7e3a52-9c1d-4e5f-8a6b-0123456789ab"

abbrev db : Db
db = record {
  payments = [];
  stripe_events = [];
  projects =
      record {
        id = codes "p";
        organization_id = codes "o";
        canonical_domain = codes "a.com";
        status = codes "active";
      }
      ∷ [];
  scans =
      record {
        id = scan_id;
        project_id = codes "p";
        scan_type = codes "quick";
        methodology_version = codes "geo-readiness-v2";
        status = codes "completed";
        max_pages = 12;
        max_browser_renders = 2;
        error_code = none;
        page_count = 3;
        requested_at = 0;
      }
      ∷ [];
  login_attempts = [];
  users = [];
  organizations = [];
  jobs = [];
  reports = [];
  credentials = [];
  members = [];
  sessions = [];
  verification_tokens = [];
}

abbrev good : Request
good = record { headers = headers; body = text (codes " VIP ") }

unlock_tests :
    ((post_unlock env web good scan_id [] (calm 5 db)).0.0 ≡ answer_with 200 done)
    × ((post_unlock env web (record good { headers = foreign }) scan_id [] (calm 5 db)).0.0
        ≡ refuse 403 (codes "forbidden"))
    × ((post_unlock env web (record good { body = no_text }) scan_id [] (calm 5 db)).0.0
        ≡ refuse 403 (codes "invalid_code"))
    × ((post_unlock env web (record good { body = unreadable }) scan_id [] (calm 5 db)).0.0
        ≡ refuse 500 (codes "server_error"))
    × ((post_unlock env web good (codes "a") [] (calm 5 db)).0.0 ≡ refuse 404 (codes "not_found"))
    × (client_ip_hash web headers ≡ some (codes "1.2.3.4"))
    × (is_csrf_token_valid (some []) (some []) ≡ false)
unfolding handlers
unlock_tests = (refl, refl, refl, refl, refl, refl, refl)

post_unlock-Redeemed_example :
    (passes_origin web headers ≡ true)
    × Redeemed env scan_id
        (text (codes " VIP "))
        (post_unlock env web good scan_id [] (calm 5 db)).0.1.db
unfolding handlers
post_unlock-Redeemed_example = post_unlock-Redeemed env web good scan_id [] (calm 5 db) refl

abbrev ids : Ids
ids = record { user = codes "u"; organization = codes "o"; project = codes "q"; scan = codes "s" }

abbrev asks : Text → Request
asks domain = record { headers = headers; body = text domain }

scan_tests :
    ((post_quick_scan web (some 600000) ids (asks (codes "b.com")) [] (calm 5 db)).0.0
      ≡ (answer_with 201 (started (codes "s") (codes "b.com") false), true))
    × ((post_quick_scan web (some 600000) ids (asks (codes "localhost")) [] (calm 5 db)).0.0
        ≡ (refuse 400 (codes "invalid_domain"), false))
    × ((get_scan scan_id (calm 5 db)).0
        ≡ ok (answer_with 200 (progress scan_id (codes "completed") none 3)))
unfolding handlers submit_body post_quick_scan get_scan normalize_domain normalize_text check_host
    is_rejected strip_point is_dotted_quad before create_quick_scan ensure_anonymous_org
    upsert_project recent_scan with_transaction get_scan_status
scan_tests = (refl, refl, refl)
