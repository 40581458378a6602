-- ===== src/Api/QuickScan.antt =====
-- POST /api/projects/quick-scan and GET /api/scans/[id]: apps/web/app/api/projects/quick-scan/route.ts
-- and apps/web/app/api/scans/[id]/route.ts. The call that wakes the worker
-- (apps/web/lib/scans/dispatch.ts) throws nothing and changes nothing here; whether it is made is
-- part of the answer.
pub mod Started
mod Tests
use geo_readiness.Common.{ℕ, Bool, true, false, Option, none, some, not, if◌then◌else◌}
use geo_readiness.Common.Text.{Text, codes}
use geo_readiness.Errors.{
  Outcome, ok, err, Error, auth_error, domain_error, weak_password, unique_violation, query_failed,
  bad_body, not_configured,
}
use geo_readiness.Http.{Response, code_text, answer_with, refuse, started, progress}
use geo_readiness.Store.{World, M, return, throw, ◌>>=◌}
use geo_readiness.Auth.Origin.{Web, passes_origin, client_ip_hash}
use geo_readiness.Scans.Domain.{normalize_domain}
use geo_readiness.Scans.Limiter.{Hits, allow, scan_limits}
use geo_readiness.Scans.Repository.{
  Ids, Submitted, ScanStatus, is_uuid, create_quick_scan, get_scan_status,
}
use geo_readiness.Api.Unlock.{Json, unreadable, no_text, text, Request, key_of}

-- The answer, and whether the worker was woken.
abbrev pub Woken : Type 0
Woken = Response × Bool

abbrev scan_response : Text → Submitted → Woken
scan_response domain s = (answer_with 201 (started s.scan_id domain s.reused), not s.reused)

abbrev pub submit_domain : Option ℕ → Ids → Outcome Text → M Woken
submit_domain cooldown ids (err e) = throw e
submit_domain cooldown ids (ok domain) = do
  submitted ← create_quick_scan cooldown ids domain
  return (scan_response domain submitted)

unfoldable pub submit_body : Web → Option ℕ → Ids → Json → M Woken
submit_body web cooldown ids unreadable = throw bad_body
submit_body web cooldown ids no_text = return (refuse 400 (codes "invalid_request"), false)
submit_body web cooldown ids (text input) =
    submit_domain cooldown ids (normalize_domain web.url_hostname input)

abbrev pub failure : Error → Response
failure (domain_error p) = refuse 400 (codes "invalid_domain")
failure (auth_error c) = refuse 403 (code_text c)
failure weak_password = refuse 500 (codes "server_error")
failure unique_violation = refuse 500 (codes "server_error")
failure query_failed = refuse 500 (codes "server_error")
failure bad_body = refuse 500 (codes "server_error")
failure not_configured = refuse 500 (codes "server_error")

abbrev pub caught_scan : Outcome Woken × World → Woken × World
caught_scan (ok r, w) = (r, w)
caught_scan (err e, w) = ((failure e, false), w)

abbrev pub within_limit :
    Web → Option ℕ → Ids → Request → World → Bool × Hits → (Woken × World) × Hits
within_limit web cooldown ids req w (false, hits) =
    (((refuse 429 (codes "rate_limited"), false), w), hits)
within_limit web cooldown ids req w (true, hits) =
    (caught_scan (submit_body web cooldown ids req.body w), hits)

unfoldable pub post_quick_scan :
    Web → Option ℕ → Ids → Request → Hits → World → (Woken × World) × Hits
post_quick_scan web cooldown ids req hits w =
    if not (passes_origin web req.headers)
    then (((refuse 403 (codes "forbidden"), false), w), hits)
    else within_limit web cooldown ids req w
        (allow scan_limits w.now (key_of (client_ip_hash web req.headers)) hits)

abbrev status_response : Option ScanStatus → Response
status_response none = refuse 404 (codes "not_found")
status_response (some s) = answer_with 200 (progress s.id s.status s.error_code s.page_count)

unfoldable pub get_scan : Text → M Response
get_scan id =
    if not (is_uuid id)
    then return (refuse 404 (codes "not_found"))
    else do scan ← get_scan_status id; return (status_response scan)
