-- ===== src/Robots/Fetch/Trace.antt =====
-- Which URLs a fetch requests.
use geo_readiness.Common.{
  ℕ, zero, suc, ◌+◌, ◌≡◌, refl, true, Option, none, some, ◌||◌, ◌==◌, ◌⊎◌, inl, inr, arith,
  Bool-cases,
}
use geo_readiness.Common.Text.{Text, codes, text_eq, text_eq_iff, is_empty}
use geo_readiness.Errors.{Outcome, ok, err}
use geo_readiness.Scans.Domain.{normalize_domain}
use geo_readiness.Robots.Fetch.{
  max_redirects, FetchFailure, Url, Reply, response, aborted, broken, Network, FetchRun,
  resolves_publicly, is_redirect, check_target, redirect_target, follow, answer, fetch_from,
  fetch_host, fetch_normalized, fetch_robots, robots_url,
}
use geo_readiness.Common.{All}

-- A URL that names the host: the robots.txt of the host, or the target of a redirect that was
-- parsed as an https URL at that host.
abbrev pub Names : Network → Text → Text → Type 0
Names net url host =
    (url ≡ robots_url host)
    ⊎ ((location : Text) × (base : Text) × (next : Url) × (net.resolve_url location base
          ≡ some next)
        × (next.protocol ≡ codes "https:")
        × (next.hostname ≡ host)
        × (next.href ≡ url))

-- Before the request every address that the host resolved to was publicly routable.
pub record Approved (net : Network) (url : Text) : Type 0 where
  pub host : Text
  pub hop : ℕ
  pub public : resolves_publicly net hop host ≡ true
  pub named : Names net url host

-- A target that passes the tests passed each of them.
check_target-passed :
    (net : Network) (hop : ℕ) (o : Option Url) (next : Url)
    → check_target net hop o ≡ inr next
    → (o ≡ some next)
      × (text_eq next.protocol (codes "https:") ≡ true)
      × (resolves_publicly net (hop + 1) next.hostname ≡ true)
check_target-passed net hop none next h = cc
check_target-passed net hop (some u) next h = ground arith

redirect_target-checked :
    (net : Network) (hop : ℕ) (url location : Text) (next : Url)
    → redirect_target net hop url (some location) ≡ inr next
    → check_target net hop (net.resolve_url location url) ≡ inr next
unfolding redirect_target
redirect_target-checked net hop url location next h =
    elim (Bool-cases (is_empty location || hop == max_redirects)) [
      | inl last ↦ cc (rw last at h)
      | inr more ↦ rw more at h
    ]

redirect_target-Approved :
    (net : Network) (hop : ℕ) (url : Text) (o : Option Text) (next : Url)
    → redirect_target net hop url o ≡ inr next
    → Approved net next.href
unfolding redirect_target
redirect_target-Approved net hop url none next h = cc
redirect_target-Approved net hop url (some location) next h =
    let c = redirect_target-checked net hop url location next h in
    let (parsed, secure, public) =
      check_target-passed net hop (net.resolve_url location url) next c in
    record {
      host = next.hostname;
      hop = hop + 1;
      public = public;
      named = inr (
        location,
        url,
        next,
        parsed,
        (text_eq_iff next.protocol (codes "https:")).0 secure,
        refl,
        refl,
      );
    }

module _ (net : Network) where
  follow-Approved :
      (url : Text) (again : Url → FetchRun) (t : FetchFailure ⊎ Url)
      → Approved net url
      → ((next : Url) → t ≡ inr next → All (Approved net) (again next).requests)
      → All (Approved net) (follow url again t).requests
  follow-Approved url again (inl reason) a h = (a, tt)
  follow-Approved url again (inr next) a h = (a, h next refl)

  answer-Approved :
      (hop : ℕ) (url : Text) (again : Url → FetchRun) (reply : Reply)
      → Approved net url
      → ((next : Url) → Approved net next.href → All (Approved net) (again next).requests)
      → All (Approved net) (answer net hop url again reply).requests
  unfolding answer
  answer-Approved hop url again aborted a h = (a, tt)
  answer-Approved hop url again broken a h = (a, tt)
  answer-Approved hop url again (response res) a h = elim (Bool-cases (is_redirect res.status)) [
    | inl moved ↦ rw moved (
        follow-Approved url again (redirect_target net hop url res.location) a
          (λ next e. h next (redirect_target-Approved net hop url res.location next e)))
    | inr final ↦ rw final (a, tt)
  ]

  fetch_from-Approved :
      (left hop : ℕ) (url : Text)
      → Approved net url
      → All (Approved net) (fetch_from net left hop url).requests
  unfolding fetch_from
  fetch_from-Approved zero hop url a = tt
  fetch_from-Approved (suc left) hop url a =
      answer-Approved hop url (λ next. fetch_from net left (hop + 1) next.href) (net.fetch hop url)
        a (λ next b. fetch_from-Approved left (hop + 1) next.href b)

  fetch_normalized-Approved :
      (o : Outcome Text) → All (Approved net) (fetch_normalized net o).requests
  unfolding fetch_host
  fetch_normalized-Approved (err e) = tt
  fetch_normalized-Approved (ok host) = elim (Bool-cases (resolves_publicly net 0 host)) [
    | inl public ↦ rw public (
        fetch_from-Approved 3 0 (robots_url host)
          (record { host = host; hop = 0; public = public; named = inl refl }))
    | inr private ↦ rw private tt
  ]

-- Every URL that fetchRobots requests, also behind redirects, belongs to a host all of whose
-- resolved addresses were judged public in a lookup of that fetch, and is the robots.txt of the
-- host or an https URL.
pub fetch_robots-Approved :
    (net : Network) (input : Text) → All (Approved net) (fetch_robots net input).requests
unfolding fetch_robots
fetch_robots-Approved net input =
    fetch_normalized-Approved net (normalize_domain net.url_hostname input)
