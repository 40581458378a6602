-- ===== src/Payments/Race/Tests.antt =====
-- Three redemptions at the same time, with a cap of two.
use geo_readiness.Common.{◌≡◌, ◌+◌, refl, none, some, List, [], ◌∷◌, map, length, arith, All}
use geo_readiness.Common.Text.{Text, codes, lower, trim}
use geo_readiness.Store.{Scan, Db}
use geo_readiness.Payments.{
  Env, above_zero, Owner, limited_used, limited_promo_max, is_entitled, owner_of,
}
use geo_readiness.Payments.Race.{Reach, asked}
use geo_readiness.Payments.Race.Overrun.{Claim, IsOpen, overrun, overrun-Reach}

races : Unit {0}
unfolding limited_used limited_promo_max is_entitled owner_of lower trim
races = tt

abbrev env : Env
env = record {
  promo_code = none;
  promo_code_limited = some (codes "VIP");
  promo_limited_max = some (codes "2");
  stripe_secret_key = none;
  stripe_webhook_secret = none;
  stripe_price = none;
  number = λ t. above_zero 2;
}

abbrev scan : Text → Scan
scan id = record {
  id = id;
  project_id = codes "p";
  scan_type = codes "quick";
  methodology_version = [];
  status = codes "completed";
  max_pages = 12;
  max_browser_renders = 2;
  error_code = none;
  page_count = 3;
  requested_at = 0;
}

abbrev db : Db
db = record {
  payments = [];
  stripe_events = [];
  projects =
      record {
        id = codes "p";
        organization_id = codes "o";
        canonical_domain = codes "a.com";
        status = codes "active";
      }
      ∷ [];
  scans = scan (codes "a") ∷ scan (codes "b") ∷ scan (codes "c") ∷ [];
  login_attempts = [];
  users = [];
  organizations = [];
  jobs = [];
  reports = [];
  credentials = [];
  members = [];
  sessions = [];
  verification_tokens = [];
}

abbrev owner : Owner
owner = record { organization_id = codes "o"; project_id = codes "p" }

abbrev claims : List Claim
claims = (codes "a", owner) ∷ (codes "b", owner) ∷ (codes "c", owner) ∷ []

claims-IsOpen : All (IsOpen db) claims
unfolding races
claims-IsOpen = ((refl, refl), ((refl, refl), ((refl, refl), tt)))

below_two : limited_used db ≡ 0
unfolding races
below_two = refl

cap_of_two : limited_promo_max env ≡ 2
unfolding races
cap_of_two = refl

overrun-Reach_example :
    Reach env 7 (overrun 7 claims db) (record { db = db; phases = map (λ c. asked c.0) claims })
    × (limited_used (overrun 7 claims db).db ≡ length claims + limited_used db)
overrun-Reach_example =
    overrun-Reach env 7 claims db claims-IsOpen (omega (arith, below_two, cap_of_two))
