-- ===== src/Robots/Fetch/Result.antt =====
-- What a finished fetch can answer.
use geo_readiness.Common.{
  ℕ, zero, suc, ◌+◌, ◌≤◌, ◌<◌, ◌≡◌, ◌≢◌, refl, ap, Option, none, some, [], ◌||◌, ltb, ◌==◌, length,
  ◌⊎◌, inl, inr, arith, Bool-cases,
}
use geo_readiness.Common.Text.{Text}
use geo_readiness.Errors.{Outcome, ok, err}
use geo_readiness.Scans.Domain.{normalize_domain}
use geo_readiness.Robots.Fetch.{
  max_bytes, FetchFailure, dns_failed, RobotsFetchResult, fetched, failed, Url, Response, Body,
  read, cut_off, lost, read_body, exceeds, is_ok, Reply, response, aborted, broken, Network,
  FetchRun, resolves_publicly, is_redirect, conclude, redirect_target, follow, answer, fetch_from,
  fetch_host, fetch_normalized, fetch_robots, declared_length, robots_url,
}

-- A text only from a status 2xx and within the bound, or the empty text for a missing file; and
-- never the failure `dns_failed`.
abbrev pub IsSound : RobotsFetchResult → Type 0
IsSound (fetched status text url) =
    (((status ≡ 404) ⊎ (status ≡ 410)) × (text ≡ []))
    ⊎ ((200 ≤ status) × (status < 300) × (length text ≤ max_bytes))
IsSound (failed reason) = reason ≢ dns_failed

read_body-IsSound :
    (status : ℕ) (url : Text) (b : Body)
    → 200 ≤ status
    → status < 300
    → IsSound (read_body status url b)
read_body-IsSound status url cut_off p q = cc
read_body-IsSound status url lost p q = cc
read_body-IsSound status url (read text) p q = elim (Bool-cases (ltb max_bytes (length text))) [
  | inl large ↦ rw large (λ e. cc)
  | inr small ↦ rw small (inr (p, q, ground arith))
]

conclude-IsSound : (url : Text) (res : Response) → IsSound (conclude url res)
unfolding conclude
conclude-IsSound url res = elim (Bool-cases (res.status == 404 || res.status == 410)) [
  | inl missing ↦ rw missing (inl (ground arith, refl))
  | inr there ↦ rw there (elim (Bool-cases (is_ok res.status)) [
    | inr bad ↦ rw bad (λ e. cc)
    | inl good ↦ rw good (elim (Bool-cases (exceeds (declared_length res.content_length))) [
      | inl large ↦ rw large (λ e. cc)
      | inr small ↦
          rw small (read_body-IsSound res.status url res.body (ground arith) (ground arith))
    ])
  ])
]

redirect_target_sound :
    (net : Network) (hop : ℕ) (url : Text) (o : Option Text)
    → redirect_target net hop url o ≢ inl dns_failed
unfolding redirect_target
redirect_target_sound net hop url none = cc
redirect_target_sound net hop url (some location) = ground arith

follow-IsSound :
    (url : Text) (again : Url → FetchRun) (t : FetchFailure ⊎ Url)
    → t ≢ inl dns_failed
    → ((next : Url) → IsSound (again next).result)
    → IsSound (follow url again t).result
follow-IsSound url again (inl reason) ne h = λ e. ne (ap inl e)
follow-IsSound url again (inr next) ne h = h next

answer-IsSound :
    (net : Network) (hop : ℕ) (url : Text) (again : Url → FetchRun) (reply : Reply)
    → ((next : Url) → IsSound (again next).result)
    → IsSound (answer net hop url again reply).result
unfolding answer
answer-IsSound net hop url again aborted h = λ e. cc
answer-IsSound net hop url again broken h = λ e. cc
answer-IsSound net hop url again (response res) h = elim (Bool-cases (is_redirect res.status)) [
  | inl moved ↦ rw moved (
      follow-IsSound url again (redirect_target net hop url res.location)
        (redirect_target_sound net hop url res.location) h)
  | inr final ↦ rw final (conclude-IsSound url res)
]

fetch_from-IsSound :
    (net : Network) (left hop : ℕ) (url : Text) → IsSound (fetch_from net left hop url).result
unfolding fetch_from
fetch_from-IsSound net zero hop url = λ e. cc
fetch_from-IsSound net (suc left) hop url =
    answer-IsSound net hop url (λ next. fetch_from net left (hop + 1) next.href) (net.fetch hop url)
      (λ next. fetch_from-IsSound net left (hop + 1) next.href)

fetch_normalized-IsSound :
    (net : Network) (o : Outcome Text) → IsSound (fetch_normalized net o).result
unfolding fetch_host
fetch_normalized-IsSound net (err e) = λ e'. cc
fetch_normalized-IsSound net (ok host) = elim (Bool-cases (resolves_publicly net 0 host)) [
  | inl public ↦ rw public (fetch_from-IsSound net 3 0 (robots_url host))
  | inr private ↦ rw private (λ e. cc)
]

-- Whatever the network answers, a text is returned only for a status from 200 to 299 and then has
-- at most 512 * 1024 code units, or it is empty and the status 404 or 410; and the failure
-- dns_failed is never returned.
pub fetch_robots-IsSound : (net : Network) (input : Text) → IsSound (fetch_robots net input).result
unfolding fetch_robots
fetch_robots-IsSound net input =
    fetch_normalized-IsSound net (normalize_domain net.url_hostname input)
