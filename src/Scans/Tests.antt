-- ===== src/Scans/Tests.antt =====
-- The scans at concrete inputs.
use geo_readiness.Common.{
  ℕ, ◌≤◌, ◌≡◌, refl, true, false, Option, none, some, List, [], ◌∷◌, ◌++◌, arith,
}
use geo_readiness.Common.Text.{Text, codes, lower, trim, split_on, before}
use geo_readiness.Common.Patterns.{is_dotted_quad}
use geo_readiness.Errors.{ok, err, domain_error, empty, invalid_url, invalid_domain, no_raw_ip}
use geo_readiness.Scans.Domain.{
  normalize_domain, normalize_text, check_host, is_rejected, strip_point,
}
use geo_readiness.Scans.Domain.Points.{normalize_domain-two_points}
use geo_readiness.Scans.Limiter.{Limits, Call, times_of, set_times, sweep, allow, serve}
use geo_readiness.Scans.Limiter.Refines.{serve_log, serve-eq-serve_log}
use geo_readiness.Scans.Limiter.Bound.{granted_calls, in_window, serve-le-max}
use geo_readiness.Store.{Db, calm, query, with_transaction}
use geo_readiness.Store.Logic.{After}
use geo_readiness.Scans.Repository.{
  is_uuid, Ids, ensure_anonymous_org, upsert_project, recent_scan, submit, create_quick_scan,
  get_scan_status, get_report_by_scan,
}
use geo_readiness.Scans.Repository.Quick.{Jobbed, create_quick_scan-Jobbed}
use geo_readiness.Scans.Repository.Cooldown.{submit-again}

domains : Unit {0}
unfolding normalize_domain normalize_text check_host is_rejected strip_point is_dotted_quad trim
    lower before split_on
domains = tt

abbrev no_urls : Text → Option Text
no_urls url = none

domain_tests :
    (normalize_domain no_urls (codes " Example.COM./path ") ≡ ok (codes "example.com"))
    × (normalize_domain no_urls (codes " ") ≡ err (domain_error empty))
    × (normalize_domain no_urls (codes "https://[") ≡ err (domain_error invalid_url))
    × (normalize_domain no_urls (codes "printer.local") ≡ err (domain_error invalid_domain))
    × (normalize_domain no_urls (codes "10.0.0.1") ≡ err (domain_error no_raw_ip))
    × (normalize_domain no_urls (codes "10.0.0.1..") ≡ ok (codes "10.0.0.1."))
unfolding domains
domain_tests = (refl, refl, refl, refl, refl, refl)

normalize_domain-two_points_example :
    normalize_domain no_urls (codes "db.internal" ++ codes "..")
    ≡ ok (codes "db.internal" ++ codes ".")
normalize_domain-two_points_example =
    normalize_domain-two_points no_urls (codes "db.internal") (ground arith)

limiter : Unit {0}
unfolding serve allow times_of set_times sweep
limiter = tt

abbrev call : ℕ → Text → Call
call at key = record { at = at; key = key }

abbrev two_a_second : Limits
two_a_second = record { max_per_window = 2; window_ms = 1000 }

abbrev burst : List Call
burst =
    call 0 (codes "a")
    ∷ call 400 (codes "a")
    ∷ call 500 (codes "b")
    ∷ call 900 (codes "a")
    ∷ call 1100 (codes "a")
    ∷ call 1200 (codes "a")
    ∷ []

serve-burst : serve two_a_second burst [] ≡ true ∷ true ∷ true ∷ false ∷ true ∷ false ∷ []
unfolding limiter
serve-burst = refl

serve-eq-serve_log_example : serve two_a_second burst [] ≡ serve_log two_a_second burst []
serve-eq-serve_log_example = serve-eq-serve_log two_a_second burst (omega arith)

serve-le-max_example :
    in_window two_a_second 1200 (codes "a") (granted_calls burst (serve two_a_second burst [])) ≤ 2
serve-le-max_example = serve-le-max two_a_second burst (codes "a") 1200 (omega arith) (omega arith)

abbrev no_rows : Db
no_rows = record {
  payments = [];
  stripe_events = [];
  projects = [];
  scans = [];
  login_attempts = [];
  users = [];
  organizations = [];
  jobs = [];
  reports = [];
  credentials = [];
  members = [];
  sessions = [];
  verification_tokens = [];
}

abbrev ids : Ids
ids = record { user = codes "u"; organization = codes "o"; project = codes "p"; scan = codes "s" }

submissions : Unit {0}
unfolding query with_transaction is_uuid ensure_anonymous_org upsert_project recent_scan
    create_quick_scan get_scan_status get_report_by_scan lower split_on
submissions = tt

repository_tests :
    (is_uuid (codes "0b7e3a52-9c1d-4E5F-8a6b-0123456789AB") ≡ true)
    × (is_uuid (codes "0b7e3a52-9c1d-4e5f-8a6b-0123456789az") ≡ false)
    × (is_uuid (codes "0b7e3a529c1d4e5f8a6b0123456789ab") ≡ false)
    × ((create_quick_scan (some 600000) ids (codes "a.com") (calm 5 no_rows)).0
        ≡ ok (record { scan_id = codes "s"; reused = false }))
unfolding submissions
repository_tests = (refl, refl, refl, refl)

create_quick_scan-Jobbed_example :
    After
      (λ r. Jobbed)
      Jobbed
      (create_quick_scan
        (some 600000)
        ids
        (codes "a.com")
        (record { now = 5; db = no_rows; faults = false ∷ false ∷ [] }))
create_quick_scan-Jobbed_example =
    create_quick_scan-Jobbed (some 600000) ids (codes "a.com")
      (record { now = 5; db = no_rows; faults = false ∷ false ∷ [] }) refl

submit-again_example :
    ((submit (some 600000) ids (codes "o") (codes "a.com") (calm 5 no_rows)).0
      ≡ ok (record { scan_id = codes "s"; reused = false }))
    × (submit
          (some 600000)
          ids
          (codes "o")
          (codes "a.com")
          (calm 7 (submit (some 600000) ids (codes "o") (codes "a.com") (calm 5 no_rows)).1.db)
        ≡ (
          ok (record { scan_id = codes "s"; reused = true }),
          calm 7 (submit (some 600000) ids (codes "o") (codes "a.com") (calm 5 no_rows)).1.db,
        ))
unfolding submissions
submit-again_example =
    submit-again 600000 ids ids (codes "o") (codes "a.com") 5 7 no_rows (omega arith) (omega arith)
      refl
