-- ===== src/Api/QuickScan/Started.antt =====
-- Which submissions apps/web/app/api/projects/quick-scan/route.ts starts a scan for.
use geo_readiness.Common.{
  ℕ, Bool, true, false, ◌≡◌, ◌≢◌, refl, ap, sym, ◌∙◌, Option, none, some, ◌⊎◌, inl, inr, Bool-cases,
}
use geo_readiness.Common.Text.{Text}
use geo_readiness.Errors.{
  Outcome, ok, err, Error, auth_error, domain_error, weak_password, unique_violation, query_failed,
  bad_body, not_configured,
}
use geo_readiness.Http.{
  Response, Body, url, error, received, duplicate, done, already_paid, started, logged_in,
  registered, progress,
}
use geo_readiness.Store.{Db, World}
use geo_readiness.Store.Logic.{After, After-and_then, anyway}
use geo_readiness.Auth.Origin.{Web, passes_origin, client_ip_hash}
use geo_readiness.Scans.Domain.{normalize_domain}
use geo_readiness.Scans.Domain.Laws.{IsPublicName, normalize_domain-IsPublicName}
use geo_readiness.Scans.Limiter.{Hits, allow, scan_limits}
use geo_readiness.Scans.Repository.{Ids, create_quick_scan}
use geo_readiness.Api.Unlock.{Json, unreadable, no_text, text, Request, key_of}
use geo_readiness.Api.QuickScan.{
  Woken, submit_domain, submit_body, failure, caught_scan, within_limit, post_quick_scan,
}

-- The domain of an answer that starts a scan.
abbrev pub domain_in : Body → Option Text
domain_in (started id domain reused) = some domain
domain_in (url link) = none
domain_in (error code) = none
domain_in received = none
domain_in duplicate = none
domain_in done = none
domain_in already_paid = none
domain_in (logged_in org verified) = none
domain_in (registered token) = none
domain_in (progress id status code pages) = none

-- The domain that the body names, which is a public name.
pub record Named (web : Web) (body : Json) (domain : Text) : Type 0 where
  pub input : Text
  pub is_body : body ≡ text input
  pub is_normal : normalize_domain web.url_hostname input ≡ ok domain
  pub is_public : IsPublicName domain

abbrev Anything : Db → Type 0
Anything db = Unit

domain_in-failure : (e : Error) → domain_in (failure e).body ≡ none
domain_in-failure (auth_error code) = refl
domain_in-failure (domain_error p) = refl
domain_in-failure weak_password = refl
domain_in-failure unique_violation = refl
domain_in-failure query_failed = refl
domain_in-failure bad_body = refl
domain_in-failure not_configured = refl

module _ (web : Web) (cooldown : Option ℕ) (ids : Ids) (body : Json) where
  abbrev Sound : Woken → Db → Type 0
  Sound r db =
      (domain_in r.0.body ≡ none)
      ⊎ ((domain : Text) → domain_in r.0.body ≡ some domain → Named web body domain)

  named :
      (input d domain : Text)
      → body ≡ text input
      → normalize_domain web.url_hostname input ≡ ok d
      → some d ≡ some domain
      → Named web body domain
  named input d domain e n q = record {
    input = input;
    is_body = e;
    is_normal = n ∙ ap ok (some_eq q);
    is_public = normalize_domain-IsPublicName web.url_hostname input domain (n ∙ ap ok (some_eq q));
  }
    where
      some_eq : some d ≡ some domain → d ≡ domain
      some_eq p = cc p

  submit_domain-Sound :
      (input : Text) (o : Outcome Text) (w : World)
      → body ≡ text input
      → normalize_domain web.url_hostname input ≡ o
      → After Sound Anything (submit_domain cooldown ids o w)
  submit_domain-Sound input (err x) w e n = tt
  submit_domain-Sound input (ok d) w e n =
      After-and_then (λ s db. Unit) Sound Anything _
        (λ s w' h. inr λ domain q. named input d domain e n q) _
        (anyway (create_quick_scan cooldown ids d w))

  submit_body-Sound :
      (b : Json) (w : World) → body ≡ b → After Sound Anything (submit_body web cooldown ids b w)
  unfolding submit_body
  submit_body-Sound unreadable w e = tt
  submit_body-Sound no_text w e = inl refl
  submit_body-Sound (text input) w e =
      submit_domain-Sound input (normalize_domain web.url_hostname input) w e refl

  caught-Sound :
      (o : Outcome Woken × World)
      → After Sound Anything o
      → Sound (caught_scan o).0 (caught_scan o).1.db
  caught-Sound (ok r, w) h = h
  caught-Sound (err x, w) h = inl (domain_in-failure x)

module _ (web : Web) (cooldown : Option ℕ) (ids : Ids) (req : Request) (w : World) where
  within-Sound :
      (o : Bool × Hits)
      → Sound web cooldown ids req.body
          (within_limit web cooldown ids req w o).0.0
          (within_limit web cooldown ids req w o).0.1.db
  within-Sound (false, hits) = inl refl
  within-Sound (true, hits) =
      caught-Sound web cooldown ids req.body (submit_body web cooldown ids req.body w)
        (submit_body-Sound web cooldown ids req.body req.body w refl)

  Sound-Named :
      (domain : Text) (r : Response × Bool) (db : Db)
      → Sound web cooldown ids req.body r db
      → domain_in r.0.body ≡ some domain
      → Named web req.body domain
  Sound-Named domain r db (inl n) q = absurd (none_some (sym n ∙ q))
    where
      none_some : none ≢ some domain
      none_some p = cc
  Sound-Named domain r db (inr f) q = f domain q

  within_limit-Named :
      (domain : Text) (o : Bool × Hits)
      → domain_in (within_limit web cooldown ids req w o).0.0.0.body ≡ some domain
      → Named web req.body domain
  within_limit-Named domain o q =
      Sound-Named domain (within_limit web cooldown ids req w o).0.0
        (within_limit web cooldown ids req w o).0.1.db (within-Sound o) q

-- Whatever queries fail and whatever the limiter holds, the handler answers with a started or
-- reused scan of a domain only for a request of the same origin, and only when normalizeDomain
-- makes that domain of the text in the body; the domain has the characters of a host name, a point
-- in it, no local or internal ending, and is no dotted quad.
pub post_quick_scan-Named :
    (web : Web) (cooldown : Option ℕ) (ids : Ids) (req : Request) (hits : Hits) (w : World)
    (domain : Text)
    → domain_in (post_quick_scan web cooldown ids req hits w).0.0.0.body ≡ some domain
    → (passes_origin web req.headers ≡ true) × Named web req.body domain
unfolding post_quick_scan
post_quick_scan-Named web cooldown ids req hits w domain q =
    elim (Bool-cases (passes_origin web req.headers)) [
      | inl o ↦ (
        o,
        within_limit-Named web cooldown ids req w domain
            (allow scan_limits w.now (key_of (client_ip_hash web req.headers)) hits) (rw o at q),
      )
      | inr o ↦ absurd (none_some (rw o at q))
    ]
  where
    none_some : none ≢ some domain
    none_some p = cc
