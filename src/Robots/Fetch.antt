-- ===== src/Robots/Fetch.antt =====
-- The fetch of a third party's robots.txt: `resolvesPublicly` and `fetchRobots` of
-- apps/web/lib/robots/fetch.ts. The network is a parameter, and may answer otherwise at each hop.
pub mod Trace
pub mod Hops
pub mod Result
use geo_readiness.Common.{
  ℕ, zero, suc, ◌+◌, Bool, true, false, Option, none, some, List, [], ◌∷◌, ◌++◌, ◌&&◌, ◌||◌, not,
  ltb, leb, ◌==◌, if◌then◌else◌, every, length, ◌⊎◌, inl, inr,
}
use geo_readiness.Common.Text.{Text, codes, text_eq, is_empty}
use geo_readiness.Common.Patterns.{to_number}
use geo_readiness.Errors.{Outcome, ok, err, domain_error}
use geo_readiness.Scans.Domain.{normalize_domain}
use geo_readiness.Robots.Address.{is_public_address}

abbrev pub max_bytes : ℕ
max_bytes = 524288

abbrev pub max_redirects : ℕ
max_redirects = 2

pub data FetchFailure : Type 0 where
  invalid_domain private_host dns_failed timeout too_large unreachable : FetchFailure

pub data RobotsFetchResult : Type 0 where
  fetched : (status : ℕ) (text : Text) (final_url : Text) → RobotsFetchResult
  failed : FetchFailure → RobotsFetchResult

-- A parsed URL: `protocol`, `hostname` and `toString()`.
pub record Url : Type 0 where
  pub protocol : Text
  pub hostname : Text
  pub href : Text

-- Reading the body: its text, the abort of the timer, or another failure.
pub data Body : Type 0 where
  read : Text → Body
  cut_off lost : Body

-- What the server sends.
pub record Response : Type 0 where
  pub status : ℕ
  pub location : Option Text
  pub content_length : Option Text
  pub body : Body

-- What `fetch` gives: an answer, the abort of the timer, or another failure.
pub data Reply : Type 0 where
  response : Response → Reply
  aborted broken : Reply

-- The resolver, the HTTP client and the URL parser of the runtime. The first number is the hop.
pub record Network : Type 0 where
  pub url_hostname : Text → Option Text
  pub lookup : ℕ → Text → Option (List Text)
  pub fetch : ℕ → Text → Reply
  pub resolve_url : Text → Text → Option Url

-- A run: the URLs that were requested, and the result.
pub record FetchRun : Type 0 where
  pub requests : List Text
  pub result : RobotsFetchResult

abbrev pub stop : FetchFailure → FetchRun
stop reason = record { requests = []; result = failed reason }

abbrev pub after_request : Text → FetchRun → FetchRun
after_request url run = record { requests = url ∷ run.requests; result = run.result }

abbrev pub all_public : Option (List Text) → Bool
all_public none = false
all_public (some addrs) = ltb 0 (length addrs) && every is_public_address addrs

unfoldable pub resolves_publicly : Network → ℕ → Text → Bool
resolves_publicly net hop host = all_public (net.lookup hop host)

abbrev pub is_redirect : ℕ → Bool
is_redirect status = leb 300 status && ltb status 400

abbrev pub is_ok : ℕ → Bool
is_ok status = leb 200 status && ltb status 300

-- `Number(header ?? 0) > MAX_BYTES`: no number is greater than nothing.
abbrev pub exceeds : Option ℕ → Bool
exceeds none = false
exceeds (some n) = ltb max_bytes n

unfoldable pub declared_length : Option Text → Option ℕ
declared_length none = some 0
declared_length (some header) = to_number header

abbrev pub read_body : ℕ → Text → Body → RobotsFetchResult
read_body status url cut_off = failed timeout
read_body status url lost = failed unreachable
read_body status url (read text) =
    if ltb max_bytes (length text) then failed too_large else fetched status text url

-- What a response that is no redirect comes to.
unfoldable pub conclude : Text → Response → RobotsFetchResult
conclude url res =
    if res.status == 404 || res.status == 410
    then fetched res.status [] url
    else if not (is_ok res.status)
    then failed unreachable
    else if exceeds (declared_length res.content_length)
    then failed too_large
    else read_body res.status url res.body

-- The target of a redirect: refused where it is no URL, not https, or names a host that does not
-- resolve publicly.
abbrev pub check_target : Network → ℕ → Option Url → FetchFailure ⊎ Url
check_target net hop none = inl unreachable
check_target net hop (some next) =
    if not (text_eq next.protocol (codes "https:"))
    then inl unreachable
    else if not (resolves_publicly net (hop + 1) next.hostname)
    then inl private_host
    else inr next

-- Refused too where there is no location, and on the last hop.
unfoldable pub redirect_target : Network → ℕ → Text → Option Text → FetchFailure ⊎ Url
redirect_target net hop url none = inl unreachable
redirect_target net hop url (some location) =
    if is_empty location || hop == max_redirects
    then inl unreachable
    else check_target net hop (net.resolve_url location url)

-- `again` goes on at the redirect's target.
abbrev pub follow : Text → (Url → FetchRun) → FetchFailure ⊎ Url → FetchRun
follow url again (inl reason) = after_request url (stop reason)
follow url again (inr next) = after_request url (again next)

unfoldable pub answer : Network → ℕ → Text → (Url → FetchRun) → Reply → FetchRun
answer net hop url again aborted = after_request url (stop timeout)
answer net hop url again broken = after_request url (stop unreachable)
answer net hop url again (response res) =
    if is_redirect res.status
    then follow url again (redirect_target net hop url res.location)
    else after_request url (record { requests = []; result = conclude url res })

-- One round for each hop that is left.
unfoldable pub fetch_from : Network → ℕ → ℕ → Text → FetchRun
fetch_from net zero hop url = stop unreachable
fetch_from net (suc left) hop url =
    answer net hop url (λ next. fetch_from net left (hop + 1) next.href) (net.fetch hop url)

abbrev pub robots_url : Text → Text
robots_url host = codes "https://" ++ host ++ codes "/robots.txt"

unfoldable pub fetch_host : Network → Text → FetchRun
fetch_host net host =
    if resolves_publicly net 0 host
    then fetch_from net (max_redirects + 1) 0 (robots_url host)
    else stop private_host

-- A domain error is answered; `normalizeDomain` throws nothing else.
abbrev pub fetch_normalized : Network → Outcome Text → FetchRun
fetch_normalized net (ok host) = fetch_host net host
fetch_normalized net (err e) = stop invalid_domain

unfoldable pub fetch_robots : Network → Text → FetchRun
fetch_robots net input = fetch_normalized net (normalize_domain net.url_hostname input)
