-- ===== src/Api/QuickScan/Tests.antt =====
-- The quick-scan handler at a concrete input.
use geo_readiness.Common.{◌≡◌, refl, true, none, some, [], if◌then◌else◌}
use geo_readiness.Common.Text.{codes, trim, lower, split_on, text_eq, before}
use geo_readiness.Common.Patterns.{is_dotted_quad}
use geo_readiness.Store.{Db, calm, query, with_transaction}
use geo_readiness.Auth.Origin.{Web, Headers, passes_origin, client_ip_hash, is_same_origin}
use geo_readiness.Scans.Domain.{
  normalize_domain, normalize_text, check_host, is_rejected, strip_point,
}
use geo_readiness.Scans.Limiter.{allow, times_of, set_times, sweep}
use geo_readiness.Scans.Repository.{
  Ids, create_quick_scan, ensure_anonymous_org, upsert_project, recent_scan,
}
use geo_readiness.Api.Unlock.{Request, text}
use geo_readiness.Api.QuickScan.{submit_body, post_quick_scan}
use geo_readiness.Api.QuickScan.Started.{domain_in, Named, post_quick_scan-Named}

submissions : Unit {0}
unfolding query passes_origin client_ip_hash is_same_origin allow times_of set_times sweep trim
    lower split_on before is_dotted_quad with_transaction normalize_domain normalize_text check_host
    is_rejected strip_point create_quick_scan ensure_anonymous_org upsert_project recent_scan
    submit_body post_quick_scan
submissions = tt

abbrev web : Web
web = record {
  url_host = λ t. if text_eq t (codes "https://a.com") then some (codes "a.com") else none;
  url_hostname = λ t. none;
  hash_ip = λ t. t;
}

abbrev headers : Headers
headers = record {
  host = some (codes "a.com");
  origin = some (codes "https://a.com");
  referer = none;
  forwarded_for = none;
}

abbrev request : Request
request = record { headers = headers; body = text (codes "B.com/page") }

abbrev db : Db
db = record {
  payments = [];
  stripe_events = [];
  projects = [];
  scans = [];
  login_attempts = [];
  users = [];
  organizations = [];
  jobs = [];
  reports = [];
  credentials = [];
  members = [];
  sessions = [];
  verification_tokens = [];
}

abbrev ids : Ids
ids = record { user = codes "u"; organization = codes "o"; project = codes "q"; scan = codes "s" }

started_now :
    domain_in (post_quick_scan web (some 600000) ids request [] (calm 5 db)).0.0.0.body
    ≡ some (codes "b.com")
unfolding submissions
started_now = refl

post_quick_scan-Named_example :
    (passes_origin web headers ≡ true) × Named web (text (codes "B.com/page")) (codes "b.com")
post_quick_scan-Named_example =
    post_quick_scan-Named web (some 600000) ids request [] (calm 5 db) (codes "b.com") started_now
