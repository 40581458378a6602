-- ===== src/Scans/Insights/Tests.antt =====
-- The numbers over all sites at concrete inputs.
use geo_readiness.Common.{
  ℕ, zero, suc, ◌+◌, ◌*◌, ◌≤◌, ◌≡◌, refl, true, false, none, some, List, [], ◌∷◌, All, keep, length,
  map, arith,
}
use geo_readiness.Common.Text.{Text, codes, lower}
use geo_readiness.Common.Words.{nub}
use geo_readiness.Common.Sort.{sort_by, place}
use geo_readiness.Store.{Db, Report, Scan, Project, calm, query}
use geo_readiness.Content.Crawlers.{crawlers, crawlers_by_purpose}
use geo_readiness.Scans.Insights.{
  Reader, Dated, DomainReport, dated_rows, latest_rows, latest_per_domain, min_sites,
}
use geo_readiness.Scans.Insights.Signals.{buckets, signal_insights, sums}
use geo_readiness.Scans.Insights.Distribution.{score_percentile, percentile_of, scores}
use geo_readiness.Scans.Insights.Distribution.Share.{score_percentile-Ordered}
use geo_readiness.Scans.Insights.Buckets.{total_count, is_in_gap, buckets-gaps}
use geo_readiness.Scans.Insights.Crawlers.{Access, benchmark, rates, count_sites, blocked_in}
use geo_readiness.Scans.Insights.Crawlers.Counts.{times_blocked, benchmark-counts}

insights : Unit {0}
unfolding lower nub sort_by place query dated_rows latest_rows latest_per_domain buckets
    signal_insights sums score_percentile percentile_of scores benchmark rates count_sites
    blocked_in crawlers crawlers_by_purpose
insights = tt

abbrev id : ℕ → Text
id n = (b'a' + n) ∷ []

abbrev project : ℕ → Project
project n = record {
  id = id n;
  organization_id = codes "o";
  canonical_domain = id n;
  status = codes "active";
}

abbrev scan : ℕ → Scan
scan n = record {
  id = id n;
  project_id = id n;
  scan_type = codes "quick";
  methodology_version = [];
  status = codes "completed";
  max_pages = 12;
  max_browser_renders = 2;
  error_code = none;
  page_count = 3;
  requested_at = 0;
}

abbrev report : ℕ → Report
report n = record {
  id = id n;
  organization_id = codes "o";
  project_id = id n;
  depth = codes "full";
  scan_id = id n;
  content = id n;
  created_at = n;
}

abbrev below_n {ℓ} : {A : Type ℓ} → (ℕ → A) → ℕ → List A
below_n f zero = []
below_n f (suc n) = f n ∷ below_n f n

abbrev db : Db
db = record {
  payments = [];
  stripe_events = [];
  projects = below_n project 10;
  scans = below_n scan 10;
  login_attempts = [];
  users = [];
  organizations = [];
  jobs = [];
  reports = below_n report 10;
  credentials = [];
  members = [];
  sessions = [];
  verification_tokens = [];
}

abbrev score_of : Text → ℕ
score_of [] = 0
score_of (c ∷ s) = (c + 3) * 10000

abbrev reader : Reader
reader = record {
  collates = λ a b. false;
  stored = λ t. record { overall_score = some (score_of t); components = some [] };
  stored_score = λ t. some (score_of t);
  stored_access = λ t. none;
}

test_low :
    score_percentile reader 1030000 (calm 5 db)
    ≡ some (record { percentile = 30; sample_size = 10 })
unfolding insights
test_low = refl

test_high :
    score_percentile reader 1060000 (calm 5 db)
    ≡ some (record { percentile = 60; sample_size = 10 })
unfolding insights
test_high = refl

score_percentile-Ordered_example : (30 ≤ 60) × (60 ≤ 100) × (min_sites ≤ 10)
score_percentile-Ordered_example =
    score_percentile-Ordered reader 1030000 1060000 (calm 5 db)
      (record { percentile = 30; sample_size = 10 }) (record { percentile = 60; sample_size = 10 })
      (omega arith) test_low test_high

abbrev rated : ℕ → DomainReport
rated n = record { overall = n; components = [] }

-- A score of 24.5 is in no bucket.
test_gap : total_count (buckets (rated 245000 ∷ rated 240000 ∷ [])) ≡ 1
unfolding insights
test_gap = refl

buckets-gaps_example :
    total_count (buckets (rated 245000 ∷ rated 240000 ∷ []))
      + length (keep is_in_gap (rated 245000 ∷ rated 240000 ∷ []))
    ≡ 2
buckets-gaps_example = buckets-gaps (rated 245000 ∷ rated 240000 ∷ [])

abbrev rows : List Dated
rows =
    record { domain = id 0; created_at = 1; content = id 1 }
    ∷ record { domain = id 0; created_at = 2; content = id 2 }
    ∷ []

test_latest : map (λ r. r.content) (latest_rows (λ a b. false) rows) ≡ id 2 ∷ []
unfolding insights
test_latest = refl

abbrev sites : List Access
sites =
    ((codes "GPTBot", false) ∷ (codes "CCBot", true) ∷ [])
    ∷ ((codes "GPTBot", false) ∷ (codes "OAI-SearchBot", false) ∷ [])
    ∷ []

test_sites :
    ((benchmark (λ a b. false) sites).blocking_search_bots ≡ 1)
    × ((benchmark (λ a b. false) sites).split_policy ≡ 1)
unfolding insights
test_sites = (refl, refl)

benchmark-counts_example :
    All (λ r. r.blocked ≡ times_blocked sites r.token) (benchmark (λ a b. false) sites).rows
    × ((benchmark (λ a b. false) sites).blocking_search_bots
          + (benchmark (λ a b. false) sites).split_policy
        ≤ (benchmark (λ a b. false) sites).sample_size)
benchmark-counts_example =
    benchmark-counts (λ a b. false) sites ((refl, (refl, tt)), ((refl, (refl, tt)), tt))
