-- ===== src/Api/CrawlerCheck.antt =====
-- POST /api/ai-crawler-check: apps/web/app/api/ai-crawler-check/route.ts. The network is a parameter.
use geo_readiness.Common.{
  ℕ, Bool, true, false, Option, none, some, List, ◌&&◌, ltb, not, ◌==◌, if◌then◌else◌, length, map,
  take,
}
use geo_readiness.Common.Text.{Text, codes, is_empty, trim}
use geo_readiness.Http.{Response, refuse}
use geo_readiness.Auth.Origin.{Web, client_ip_hash}
use geo_readiness.Scans.Limiter.{Hits, allow, crawler_check_limits}
use geo_readiness.Robots.Fetch.{
  FetchFailure, invalid_domain, private_host, dns_failed, timeout, too_large, unreachable,
  RobotsFetchResult, fetched, failed, Network, fetch_robots,
}
use geo_readiness.Robots.Parse.{
  Verdict, MatchedBy, RobotsFile, parse_robots, root_verdict, has_path_restrictions,
}
use geo_readiness.Content.Crawlers.{Crawler, crawlers}
use geo_readiness.Api.Unlock.{Json, unreadable, no_text, text, Request, key_of}

pub record CrawlerCheckRow : Type 0 where
  pub token : Text
  pub verdict : Verdict
  pub matched_by : MatchedBy
  pub path_restrictions : Bool

pub record CrawlerCheckResponse : Type 0 where
  pub domain : Text
  pub robots_status : ℕ
  pub robots_url : Text
  pub has_robots : Bool
  pub sitemaps : List Text
  pub rows : List CrawlerCheckRow

pub data CheckAnswer : Type 0 where
  refused : Response → CheckAnswer
  checked : CrawlerCheckResponse → CheckAnswer

abbrev pub check_row : RobotsFile → Crawler → CrawlerCheckRow
check_row file c =
    let v = root_verdict file c.token in
    record {
      token = c.token;
      verdict = v.verdict;
      matched_by = v.matched_by;
      path_restrictions = has_path_restrictions v;
    }

abbrev failure_text : FetchFailure → Text
failure_text invalid_domain = codes "invalid_domain"
failure_text private_host = codes "private_host"
failure_text dns_failed = codes "dns_failed"
failure_text timeout = codes "timeout"
failure_text too_large = codes "too_large"
failure_text unreachable = codes "unreachable"

abbrev failure_status : FetchFailure → ℕ
failure_status invalid_domain = 400
failure_status private_host = 502
failure_status dns_failed = 502
failure_status timeout = 502
failure_status too_large = 502
failure_status unreachable = 502

-- `url_hostname` is `new URL(…).hostname`, which throws on no URL: then there is no answer.
unfoldable pub check_response : (Text → Option Text) → RobotsFetchResult → Option CheckAnswer
check_response url_hostname (failed reason) =
    some (refused (refuse (failure_status reason) (failure_text reason)))
check_response url_hostname (fetched status body final_url) =
    let file = parse_robots body in
    elim (url_hostname final_url) [
      | none ↦ none
      | some domain ↦ some (
          checked (record {
            domain = domain;
            robots_status = status;
            robots_url = final_url;
            has_robots = (status == 200) && not (is_empty (trim body));
            sitemaps = take 10 file.sitemaps;
            rows = map (check_row file) crawlers;
          }))
    ]

abbrev pub check_body : Network → Json → Option CheckAnswer
check_body net unreadable = some (refused (refuse 400 (codes "invalid_request")))
check_body net no_text = some (refused (refuse 400 (codes "invalid_request")))
check_body net (text domain) =
    if ltb 255 (length domain)
    then some (refused (refuse 400 (codes "invalid_request")))
    else check_response net.url_hostname (fetch_robots net domain).result

abbrev pub check_within : Network → Json → Bool × Hits → Option CheckAnswer × Hits
check_within net body (false, hits) = (some (refused (refuse 429 (codes "rate_limited"))), hits)
check_within net body (true, hits) = (check_body net body, hits)

unfoldable pub post_crawler_check : Web → Network → ℕ → Request → Hits → Option CheckAnswer × Hits
post_crawler_check web net now req hits =
    check_within net req.body
      (allow crawler_check_limits now (key_of (client_ip_hash web req.headers)) hits)
