-- ===== src/Report/Sample.antt =====
-- A small report, for tests.
use geo_readiness.Common.{ℕ, false, none, some, [], ◌∷◌}
use geo_readiness.Common.Text.{Text, codes}
use geo_readiness.Report.{ReportCluster, ReportAction, ReportDocument}

abbrev action : Text → ℕ → ReportAction
action id priority = record {
  rule_id = id;
  title = codes "Title";
  category = codes "content";
  severity = codes "high";
  priority_score = priority;
  problem = codes "Secret";
  recommendation = codes "Do";
  expected_signal = [];
  how_to_verify = [];
  evidence = [];
  fix_prompt = some (codes "Paste");
}

abbrev cluster : Text → ℕ → Text → ReportCluster
cluster intent priority prompt = record {
  cluster_key = intent;
  intent = intent;
  label = intent;
  priority = priority;
  coverage_score = 0;
  sample_prompt = some prompt;
  requirements = [];
  missing_requirements = [];
}

abbrev pub acme : ReportDocument
acme = record {
  meta = record {
    canonical_domain = codes "acme.com";
    scan_type = codes "quick";
    methodology_version = codes "1";
    pages_analyzed = 3;
    clusters_evaluated = 2;
    confidence_score = 700000;
    confidence_band = codes "high";
    methodology_hash = none;
    as_of = none;
  };
  overall_score = 612500;
  overall_level = codes "Good";
  components = [];
  strengths = codes "Fast" ∷ [];
  gaps = [];
  business_profile = record {
    brand_name = some (codes "Acme");
    needs_confirmation = false;
    legal_name = some (codes "Acme Ltd");
    services = [];
    products = [];
    locations = [];
    countries = [];
    languages = codes "en" ∷ [];
    site_type = none;
  };
  actions = action (codes "r1") 10000 ∷ action (codes "r2") 20000 ∷ [];
  clusters =
      cluster (codes "branded") 9 (codes "What is Acme?")
      ∷ cluster (codes "best") 5 (codes "What are the best anvils near me?")
      ∷ cluster (codes "how") 7 (codes "How does acme make rockets?")
      ∷ cluster (codes "price") 3 (codes "Buy now?")
      ∷ [];
  disclaimer = codes "D";
  stages = none;
  diagnostics = none;
  fix_prompt_master = some (codes "Master");
  crawl = none;
  provisional = none;
  cluster_note = none;
  language_coverage = none;
}
