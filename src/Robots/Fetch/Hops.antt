-- ===== src/Robots/Fetch/Hops.antt =====
-- How many URLs a fetch requests: the test on the last hop ends the loop over redirects.
use geo_readiness.Common.{
  ℕ, zero, suc, ◌+◌, ◌≤◌, ◌<◌, ◌≡◌, ◌≢◌, refl, ap, Option, none, some, ◌||◌, ◌==◌, length, ◌⊎◌, inl,
  inr, arith, Bool-cases,
}
use geo_readiness.Common.Text.{Text, is_empty}
use geo_readiness.Robots.Fetch.{
  max_redirects, FetchFailure, Url, Reply, response, aborted, broken, Network, FetchRun,
  is_redirect, redirect_target, follow, answer, fetch_from, after_request,
}

-- Behind the last hop there is none.
redirect_target-hops :
    (net : Network) (hop : ℕ) (url : Text) (o : Option Text) (next : Url)
    → redirect_target net hop url o ≡ inr next
    → hop ≢ max_redirects
unfolding redirect_target
redirect_target-hops net hop url none next h e = cc h
redirect_target-hops net hop url (some location) next h e =
    elim (Bool-cases (is_empty location || hop == max_redirects)) [
      | inl last ↦ cc (rw last at h)
      | inr more ↦ ground arith
    ]

module _ (net : Network) (hop : ℕ) (url : Text) (n : ℕ) (again : Url → FetchRun) where
  follow-length :
      (t : FetchFailure ⊎ Url)
      → ((next : Url) → t ≡ inr next → length (again next).requests ≤ n)
      → length (follow url again t).requests ≤ suc n
  follow-length (inl reason) h = omega arith
  follow-length (inr next) h = omega (arith, h next refl)

  answer-length :
      (reply : Reply)
      → (hop ≢ max_redirects → (next : Url) → length (again next).requests ≤ n)
      → length (answer net hop url again reply).requests ≤ suc n
  unfolding answer
  answer-length aborted h = omega arith
  answer-length broken h = omega arith
  answer-length (response res) h = elim (Bool-cases (is_redirect res.status)) [
    | inl moved ↦ rw moved (
        follow-length (redirect_target net hop url res.location)
          (λ next e. h (redirect_target-hops net hop url res.location next e) next))
    | inr final ↦ rw final (omega arith)
  ]

-- From a hop on, one request for it and for each hop behind it.
fetch_from-length :
    (net : Network) (rounds hop more : ℕ) (url : Text)
    → hop + more ≡ max_redirects
    → length (fetch_from net rounds hop url).requests ≤ suc more
unfolding fetch_from
fetch_from-length net zero hop more url e = omega arith
fetch_from-length net (suc rounds) hop zero url e =
    answer-length net hop url 0 (λ next. fetch_from net rounds (hop + 1) next.href)
      (net.fetch hop url) (λ h next. absurd (h (omega (arith, e))))
fetch_from-length net (suc rounds) hop (suc more) url e =
    answer-length net hop url (suc more) (λ next. fetch_from net rounds (hop + 1) next.href)
      (net.fetch hop url)
      (λ h next. fetch_from-length net rounds (hop + 1) more next.href (omega (arith, e)))

module _ (net : Network) (hop : ℕ) (url : Text) (again other : Url → FetchRun) where
  follow-same :
      (t : FetchFailure ⊎ Url)
      → ((next : Url) → t ≡ inr next → again next ≡ other next)
      → follow url again t ≡ follow url other t
  follow-same (inl reason) h = refl
  follow-same (inr next) h = ap (after_request url) (h next refl)

  answer-same :
      (reply : Reply)
      → (hop ≢ max_redirects → (next : Url) → again next ≡ other next)
      → answer net hop url again reply ≡ answer net hop url other reply
  unfolding answer
  answer-same aborted h = refl
  answer-same broken h = refl
  answer-same (response res) h = elim (Bool-cases (is_redirect res.status)) [
    | inl moved ↦ rw moved (
        follow-same (redirect_target net hop url res.location)
          (λ next e. h (redirect_target-hops net hop url res.location next e) next))
    | inr final ↦ rw final refl
  ]

-- From a hop on, a round for it and for each hop behind it is enough.
fetch_from-same :
    (net : Network) (rounds hop more : ℕ) (url : Text)
    → hop + more ≡ max_redirects
    → more < rounds
    → fetch_from net rounds hop url ≡ fetch_from net (suc more) hop url
unfolding fetch_from
fetch_from-same net zero hop more url e h = absurd (omega (arith, h))
fetch_from-same net (suc rounds) hop zero url e h =
    answer-same net hop url _ _ (net.fetch hop url) (λ k next. absurd (k (omega (arith, e))))
fetch_from-same net (suc rounds) hop (suc more) url e h =
    answer-same net hop url _ _ (net.fetch hop url) (λ k next.
      fetch_from-same net rounds (hop + 1) more next.href (omega (arith, e)) (omega (arith, h)))

-- From the first hop on, the test on the last hop alone ends the chase of redirects: with any
-- number of rounds above two, the loop requests the same URLs and comes to the same result as with
-- three, and it makes at most three requests.
pub fetch_from-ends :
    (net : Network) (rounds : ℕ) (url : Text)
    → max_redirects < rounds
    → (fetch_from net rounds 0 url ≡ fetch_from net (max_redirects + 1) 0 url)
      × (length (fetch_from net rounds 0 url).requests ≤ max_redirects + 1)
fetch_from-ends net rounds url h = (
  fetch_from-same net rounds 0 max_redirects url refl h,
  fetch_from-length net rounds 0 max_redirects url refl,
)
