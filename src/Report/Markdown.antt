-- ===== src/Report/Markdown.antt =====
-- A report as Markdown: apps/web/lib/report/markdown.ts.
use geo_readiness.Common.{
  ℕ, suc, Bool, false, Option, none, some, List, [], ◌∷◌, ◌++◌, ◌&&◌, ◌||◌, not, leb, ◌==◌,
  if◌then◌else◌, keep, map, take,
}
use geo_readiness.Common.Text.{Text, codes, is_empty, join, is_digit}
use geo_readiness.Common.Words.{show_number}
use geo_readiness.Report.{
  to_fixed, list_or_empty, ReportComponent, ReportCluster, ReportAction, ReportProfile, ReportStage,
  ReportDiagnostic, ReportDocument,
}
use geo_readiness.Report.Humanize.{or_text}

abbrev concat : List (List Text) → List Text
concat [] = []
concat (xs ∷ xss) = xs ++ concat xss

abbrev blank : Text
blank = []

abbrev table_row : List Text → Text
table_row cells = codes "| " ++ join (codes " | ") cells ++ codes " |"

unfoldable pub table : List Text → List (List Text) → Text
table headers rows = join (10 ∷ []) (
    table_row headers
    ∷ table_row (map (λ h. codes "---") headers)
    ∷ join (10 ∷ []) (map table_row rows)
    ∷ [])

abbrev listed : List Text → Text
listed ts = or_text (join (codes ", ") ts) (codes "—")

abbrev or_default : Option Text → Text → Text
or_default none d = d
or_default (some t) d = t

abbrev measured : Option Text → List Text
measured none = []
measured (some t) = if is_empty t then [] else (codes "- Measured: " ++ take 10 t) ∷ []

unfoldable pub head_lines : ReportDocument → List Text
head_lines r =
    ((codes "# Find Your AI Score report for " ++ r.meta.canonical_domain)
      ∷ blank
      ∷ (codes "**Overall readiness: "
          ++ to_fixed r.overall_score
          ++ codes "/100 ("
          ++ r.overall_level
          ++ codes ")**")
      ∷ blank
      ∷ (codes "- Confidence: "
          ++ to_fixed r.meta.confidence_score
          ++ codes "/100 ("
          ++ r.meta.confidence_band
          ++ codes ")")
      ∷ (codes "- Pages analyzed: " ++ show_number r.meta.pages_analyzed)
      ∷ (codes "- Prompt clusters: " ++ show_number r.meta.clusters_evaluated)
      ∷ (codes "- Methodology: " ++ r.meta.methodology_version)
      ∷ measured r.meta.as_of)
    ++ blank ∷ []

unfoldable pub component_lines : List ReportComponent → List Text
component_lines cs =
    codes "## Component scores"
    ∷ blank
    ∷ table (codes "Component" ∷ codes "Score" ∷ codes "Level" ∷ [])
        (map (λ c. c.name ∷ to_fixed c.score ∷ c.level ∷ []) cs)
    ∷ blank
    ∷ []

abbrev stage_section : ReportStage → List Text
stage_section s =
    (codes "### "
      ++ s.name
      ++ codes " — "
      ++ to_fixed s.score
      ++ codes "/100 ("
      ++ s.level
      ++ codes ")")
    ∷ blank
    ∷ s.explanation
    ∷ blank
    ∷ []

unfoldable pub stage_lines : List ReportStage → List Text
stage_lines [] = []
stage_lines (s ∷ ss) = codes "## Readiness stages" ∷ blank ∷ concat (map stage_section (s ∷ ss))

unfoldable pub limiting_lines : List ReportDiagnostic → List Text
limiting_lines [] = []
limiting_lines (d ∷ ds) =
    codes "## What's limiting your weakest areas"
    ∷ blank
    ∷ (map (λ e. codes "- " ++ e.explanation) (d ∷ ds) ++ blank ∷ [])

unfoldable pub profile_lines : ReportProfile → List Text
profile_lines p =
    codes "## Business profile"
    ∷ blank
    ∷ (codes "- Brand: " ++ or_default p.brand_name (codes "Unknown — needs confirmation"))
    ∷ (codes "- Legal name: " ++ or_default p.legal_name (codes "—"))
    ∷ (codes "- Locations: " ++ listed p.locations)
    ∷ (codes "- Services: " ++ listed p.services)
    ∷ (codes "- Products: " ++ listed p.products)
    ∷ (codes "- Languages: " ++ listed p.languages)
    ∷ blank
    ∷ []

abbrev cluster_row : ReportCluster → List Text
cluster_row c = c.intent ∷ c.label ∷ to_fixed c.coverage_score ∷ listed c.missing_requirements ∷ []

unfoldable pub cluster_lines : List ReportCluster → List Text
cluster_lines [] = []
cluster_lines (c ∷ cs) =
    codes "## Prompt cluster map & coverage"
    ∷ blank
    ∷ table (codes "Intent" ∷ codes "Topic" ∷ codes "Coverage" ∷ codes "Missing requirements" ∷ [])
        (map cluster_row (c ∷ cs))
    ∷ blank
    ∷ []

abbrev evidence_lines : List Text → List Text
evidence_lines [] = []
evidence_lines (e ∷ es) = codes "**Evidence:**" ∷ map (λ t. codes "- " ++ t) (e ∷ es)

abbrev given_prompt : Option Text → (Text → List Text) → List Text
given_prompt none show = []
given_prompt (some t) show = if is_empty t then [] else show t

abbrev fix_lines : Text → List Text
fix_lines t =
    blank ∷ codes "**Fix prompt (copy-paste):**" ∷ blank ∷ codes "```text" ∷ t ∷ codes "```" ∷ []

unfoldable pub action_section : ℕ → ReportAction → List Text
action_section i a =
    (codes "### "
      ++ show_number i
      ++ codes ". "
      ++ a.title
      ++ codes "  `"
      ++ a.severity
      ++ codes "` ("
      ++ a.rule_id
      ++ codes ")")
    ∷ blank
    ∷ (codes "**Problem:** " ++ a.problem)
    ∷ blank
    ∷ (codes "**Fix:** " ++ a.recommendation)
    ∷ blank
    ∷ (codes "**Verify:** " ++ a.how_to_verify)
    ∷ blank
    ∷ (evidence_lines a.evidence ++ (given_prompt a.fix_prompt fix_lines ++ blank ∷ []))

unfoldable pub action_lines : ℕ → List ReportAction → List Text
action_lines i [] = []
action_lines i (a ∷ actions) = action_section i a ++ action_lines (suc i) actions

abbrev master_lines : Text → List Text
master_lines t =
    codes "## Master fix prompt"
    ∷ blank
    ∷ codes "Paste this into ChatGPT, Claude or hand it to your developer."
    ∷ blank
    ∷ codes "```text"
    ∷ t
    ∷ codes "```"
    ∷ blank
    ∷ []

unfoldable pub report_to_markdown : ReportDocument → Text
report_to_markdown r = join (10 ∷ []) (
    concat (
      head_lines r
      ∷ component_lines r.components
      ∷ stage_lines (list_or_empty r.stages)
      ∷ limiting_lines (keep (λ d. not (is_empty d.explanation)) (list_or_empty r.diagnostics))
      ∷ profile_lines r.business_profile
      ∷ cluster_lines r.clusters
      ∷ (codes "## Prioritized fixes" ∷ blank ∷ [])
      ∷ action_lines 1 r.actions
      ∷ given_prompt r.fix_prompt_master master_lines
      ∷ (codes "---" ∷ blank ∷ (codes "_" ++ r.disclaimer ++ codes "_") ∷ blank ∷ [])
      ∷ []))

abbrev pub is_plain_unit : ℕ → Bool
is_plain_unit c = is_digit c || (leb b'a' c && leb c b'z') || (leb b'A' c && leb c b'Z')

abbrev dashed_unit : Bool → ℕ → Text
dashed_unit run c = if is_plain_unit c then c ∷ [] else if run then [] else b'-' ∷ []

-- `s.replace(/[^a-z0-9]+/gi, "-")`: each run of other units becomes a dash.
dashed : Bool → Text → Text
dashed run [] = []
dashed run (c ∷ s) = dashed_unit run c ++ dashed (not (is_plain_unit c)) s

abbrev strip_first : Text → Text
strip_first [] = []
strip_first (c ∷ s) = if c == b'-' then s else c ∷ s

abbrev strip_last : Text → Text
strip_last [] = []
strip_last (c ∷ []) = if c == b'-' then [] else c ∷ []
strip_last (c ∷ d ∷ s) = c ∷ strip_last (d ∷ s)

-- The name of the file of a report.
unfoldable pub report_file_base : ReportDocument → Text
unfolding dashed
report_file_base r =
    codes "geo-readiness-"
    ++ or_text (strip_last (strip_first (dashed false r.meta.canonical_domain))) (codes "report")
