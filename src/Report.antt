-- ===== src/Report.antt =====
-- The report of a scan, as the worker writes it: apps/web/lib/report/types.ts. Scores, weights and
-- priorities are numbers with at most four decimals and not below 0, and are held in
-- ten-thousandths.
pub mod Citation
pub mod Preview
pub mod Markdown
pub mod Language
pub mod Humanize
pub mod Level
pub mod Sample
mod Tests
use geo_readiness.Common.{ℕ, ◌+◌, ◌/◌, Bool, Option, none, some, List, []}
use geo_readiness.Common.Text.{Text}
use geo_readiness.Common.Words.{show_number}

-- A number in ten-thousandths.
abbrev pub Score : Type 0
Score = ℕ

-- `Math.round(x)` of a score.
abbrev pub round : Score → ℕ
round x = (x + 5000) / 10000

-- `x.toFixed(0)`
abbrev pub to_fixed : Score → Text
to_fixed x = show_number (round x)

pub record ReportComponent : Type 0 where
  pub key : Text
  pub name : Text
  pub score : Score
  pub level : Text
  pub applicable : Option Bool

pub record ReportRequirement : Type 0 where
  pub name : Text
  pub weight : Score
  pub strength : Score

pub record ReportCluster : Type 0 where
  pub cluster_key : Text
  pub intent : Text
  pub label : Text
  pub priority : Score
  pub coverage_score : Score
  pub sample_prompt : Option Text
  pub requirements : List ReportRequirement
  pub missing_requirements : List Text

pub record ReportAction : Type 0 where
  pub rule_id : Text
  pub title : Text
  pub category : Text
  pub severity : Text
  pub priority_score : Score
  pub problem : Text
  pub recommendation : Text
  pub expected_signal : Text
  pub how_to_verify : Text
  pub evidence : List Text
  pub fix_prompt : Option Text

pub record ReportProfile : Type 0 where
  pub brand_name : Option Text
  pub needs_confirmation : Bool
  pub legal_name : Option Text
  pub services : List Text
  pub products : List Text
  pub locations : List Text
  pub countries : List Text
  pub languages : List Text
  pub site_type : Option Text

pub record ReportMeta : Type 0 where
  pub canonical_domain : Text
  pub scan_type : Text
  pub methodology_version : Text
  pub pages_analyzed : ℕ
  pub clusters_evaluated : ℕ
  pub confidence_score : Score
  pub confidence_band : Text
  pub methodology_hash : Option Text
  pub as_of : Option Text

pub record ReportStage : Type 0 where
  pub key : Text
  pub name : Text
  pub score : Score
  pub level : Text
  pub explanation : Text

pub record ReportDiagnostic : Type 0 where
  pub component : Text
  pub strongest_signals : List Text
  pub limiting_signals : List Text
  pub explanation : Text

pub record ReportLanguageCoverage : Type 0 where
  pub language : Text
  pub pages : ℕ
  pub prompt_coverage_score : Score

-- `ai_crawler_access` is an object: tokens with their verdicts, in order, each once.
pub record ReportCrawl : Type 0 where
  pub status : Text
  pub pages_analyzed : ℕ
  pub pages_fetched : ℕ
  pub errors : ℕ
  pub robots_skipped : ℕ
  pub homepage_reachable : Bool
  pub robots_blocked_core : Bool
  pub valid_response_ratio : Score
  pub ai_crawler_access : Option (List (Text × Bool))

pub record ReportDocument : Type 0 where
  pub meta : ReportMeta
  pub overall_score : Score
  pub overall_level : Text
  pub components : List ReportComponent
  pub strengths : List Text
  pub gaps : List Text
  pub business_profile : ReportProfile
  pub actions : List ReportAction
  pub clusters : List ReportCluster
  pub disclaimer : Text
  pub stages : Option (List ReportStage)
  pub diagnostics : Option (List ReportDiagnostic)
  pub fix_prompt_master : Option Text
  pub crawl : Option ReportCrawl
  pub provisional : Option Bool
  pub cluster_note : Option Text
  pub language_coverage : Option (List ReportLanguageCoverage)

-- `xs ?? []`
abbrev pub list_or_empty {ℓ} : {A : Type ℓ} → Option (List A) → List A
list_or_empty none = []
list_or_empty (some xs) = xs
