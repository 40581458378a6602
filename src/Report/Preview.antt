-- ===== src/Report/Preview.antt =====
-- The free preview of a report: apps/web/lib/report/preview.ts.
pub mod Questions
pub mod Redacted
use geo_readiness.Common.{
  ℕ, Bool, Option, none, some, List, [], ◌∷◌, ltb, not, keep, length, map, head?,
}
use geo_readiness.Common.Text.{Text, text_eq}
use geo_readiness.Common.Sort.{sort_by}
use geo_readiness.Report.{
  Score, ReportMeta, ReportComponent, ReportAction, ReportCrawl, ReportDocument,
}
use geo_readiness.Report.Citation.{sample_citation_query}

pub record PreviewDoc : Type 0 where
  pub meta : ReportMeta
  pub overall_score : Score
  pub overall_level : Text
  pub components : List ReportComponent
  pub issue_count : ℕ
  pub issue_severities : List Text
  pub sample_action : Option ReportAction
  pub sample_query : Option Text
  pub ai_crawler_access : Option (List (Text × Bool))
  pub disclaimer : Text

abbrev pub more_urgent : ReportAction → ReportAction → Bool
more_urgent a b = ltb b.priority_score a.priority_score

-- The action of the highest priority, the first of equals.
unfoldable pub top_action : List ReportAction → Option ReportAction
top_action actions = head? (sort_by more_urgent actions)

abbrev pub without_prompt : Option ReportAction → Option ReportAction
without_prompt none = none
without_prompt (some a) = some (record a { fix_prompt = none })

abbrev pub remaining : Option ReportAction → List ReportAction → List ReportAction
remaining none actions = actions
remaining (some top) actions = keep (λ a. not (text_eq a.rule_id top.rule_id)) actions

abbrev pub access_of : Option ReportCrawl → Option (List (Text × Bool))
access_of none = none
access_of (some crawl) = crawl.ai_crawler_access

unfoldable pub to_preview_doc : ReportDocument → PreviewDoc
to_preview_doc report =
    let top = top_action report.actions in
    record {
      meta = report.meta;
      overall_score = report.overall_score;
      overall_level = report.overall_level;
      components = report.components;
      issue_count = length report.actions;
      issue_severities = map (λ a. a.severity) (remaining top report.actions);
      sample_action = without_prompt top;
      sample_query = sample_citation_query report;
      ai_crawler_access = access_of report.crawl;
      disclaimer = report.disclaimer;
    }
