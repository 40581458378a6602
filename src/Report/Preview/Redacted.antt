-- ===== src/Report/Preview/Redacted.antt =====
-- What the preview keeps to itself: apps/web/lib/report/preview.ts on a report whose paid parts are
-- blanked.
use geo_readiness.Common.{
  suc, ◌≡◌, refl, ap, ap₂, ◌∙◌, Bool, false, Option, none, some, List, [], ◌∷◌, ltb, not, keep,
  length, map, head?, if◌then◌else◌, Bool-cases, inl, inr,
}
use geo_readiness.Common.Text.{Text, text_eq, text_eq_refl}
use geo_readiness.Common.Sort.{sort_by, sort_by-map}
use geo_readiness.Report.{ReportAction, ReportCluster, ReportCrawl, ReportDocument}
use geo_readiness.Report.Citation.{
  Kit, kit_of, select, query_text, sample_citation_query, citation_queries, candidates,
  kit_language, questions_text,
}
use geo_readiness.Report.Preview.Questions.{
  hide_cluster, candidates-hide_cluster, prompts-hide_cluster, select-hide_cluster,
}
use geo_readiness.Report.Preview.{
  access_of, top_action, more_urgent, without_prompt, remaining, to_preview_doc,
}

-- An action with nothing but its rule, its severity and its priority.
abbrev pub blank_action : ReportAction → ReportAction
blank_action a = record a {
  title = [];
  category = [];
  problem = [];
  recommendation = [];
  expected_signal = [];
  how_to_verify = [];
  evidence = [];
  fix_prompt = none;
}

abbrev pub is_rule_of : Option ReportAction → ReportAction → Bool
is_rule_of none a = false
is_rule_of (some top) a = text_eq a.rule_id top.rule_id

-- The actions of the top rule lose their fix prompt, all others everything.
abbrev pub hide_action : Option ReportAction → ReportAction → ReportAction
hide_action top a = if is_rule_of top a then record a { fix_prompt = none } else blank_action a

-- Only the verdicts on AI crawlers are left of the crawl.
abbrev pub hide_crawl : Option ReportCrawl → Option ReportCrawl
hide_crawl none = none
hide_crawl (some c) = some (record c {
  status = [];
  pages_analyzed = 0;
  pages_fetched = 0;
  errors = 0;
  robots_skipped = 0;
  homepage_reachable = false;
  robots_blocked_core = false;
  valid_response_ratio = 0;
})

-- A report without its paid parts: the fix prompts, all of the actions that are not of the top rule,
-- the stages, the diagnostics, the strengths and gaps, the profile but for the brand and the
-- languages, the clusters but for their intents, priorities and questions.
unfoldable pub hide : ReportDocument → ReportDocument
hide report = record report {
  strengths = [];
  gaps = [];
  actions = map (hide_action (top_action report.actions)) report.actions;
  business_profile = record report.business_profile {
    needs_confirmation = false;
    legal_name = none;
    services = [];
    products = [];
    locations = [];
    countries = [];
    site_type = none;
  };
  clusters = map hide_cluster report.clusters;
  stages = none;
  diagnostics = none;
  fix_prompt_master = none;
  crawl = hide_crawl report.crawl;
  provisional = none;
  cluster_note = none;
  language_coverage = none;
}

length-map :
    (f : ReportAction → ReportAction) (xs : List ReportAction) → length (map f xs) ≡ length xs
length-map f [] = refl
length-map f (x ∷ xs) = ap suc (length-map f xs)

module _ (top : Option ReportAction) where
  abbrev shown : ReportAction → ReportAction
  shown a = hide_action top a

  kept_priority : (a : ReportAction) → (shown a).priority_score ≡ a.priority_score
  kept_priority a = elim (Bool-cases (is_rule_of top a)) [ inl e ↦ rw e refl | inr e ↦ rw e refl ]

  kept_rule : (a : ReportAction) → (shown a).rule_id ≡ a.rule_id
  kept_rule a = elim (Bool-cases (is_rule_of top a)) [ inl e ↦ rw e refl | inr e ↦ rw e refl ]

  kept_severity : (a : ReportAction) → (shown a).severity ≡ a.severity
  kept_severity a = elim (Bool-cases (is_rule_of top a)) [ inl e ↦ rw e refl | inr e ↦ rw e refl ]

  more_urgent-shown : (a b : ReportAction) → more_urgent (shown a) (shown b) ≡ more_urgent a b
  more_urgent-shown a b = ap₂ ltb (kept_priority b) (kept_priority a)

  top_action-shown :
      (actions : List ReportAction)
      → top_action (map shown actions) ≡ head? (map shown (sort_by more_urgent actions))
  unfolding top_action
  top_action-shown actions = ap head? (sort_by-map more_urgent shown more_urgent-shown actions)

  severities-shown :
      (id : Text) (actions : List ReportAction)
      → map (λ a. a.severity) (keep (λ a. not (text_eq a.rule_id id)) (map shown actions))
        ≡ map (λ a. a.severity) (keep (λ a. not (text_eq a.rule_id id)) actions)
  severities-shown id [] = refl
  severities-shown id (a ∷ actions) = rw (kept_rule a) (elim (Bool-cases (text_eq a.rule_id id)) [
    | inl e ↦ rw e (severities-shown id actions)
    | inr e ↦ rw e (ap₂ (λ s ss. s ∷ ss) (kept_severity a) (severities-shown id actions))
  ])

  plain_severities :
      (actions : List ReportAction)
      → map (λ a. a.severity) (map shown actions) ≡ map (λ a. a.severity) actions
  plain_severities [] = refl
  plain_severities (a ∷ actions) = ap₂ (λ s ss. s ∷ ss) (kept_severity a) (plain_severities actions)

without_prompt-shown :
    (a : ReportAction) → without_prompt (some (hide_action (some a) a)) ≡ without_prompt (some a)
without_prompt-shown a = rw (text_eq_refl a.rule_id) refl

abbrev hide_top : Option ReportAction → Option ReportAction
hide_top none = none
hide_top (some a) = some (hide_action (some a) a)

module _ (actions : List ReportAction) where
  abbrev hidden : List ReportAction
  hidden = map (hide_action (top_action actions)) actions

  head-shown :
      (xs : List ReportAction) → head? (map (hide_action (head? xs)) xs) ≡ hide_top (head? xs)
  head-shown [] = refl
  head-shown (x ∷ xs) = refl

  top_action-hidden : top_action hidden ≡ hide_top (top_action actions)
  unfolding top_action
  top_action-hidden =
      top_action-shown (top_action actions) actions ∙ head-shown (sort_by more_urgent actions)

  remaining-hidden :
      (top : Option ReportAction)
      → map (λ a. a.severity) (remaining (hide_top top) (map (hide_action top) actions))
        ≡ map (λ a. a.severity) (remaining top actions)
  remaining-hidden none = plain_severities none actions
  remaining-hidden (some a) =
      rw (kept_rule (some a) a) (severities-shown (some a) a.rule_id actions)

  sample-hidden : (top : Option ReportAction) → without_prompt (hide_top top) ≡ without_prompt top
  sample-hidden none = refl
  sample-hidden (some a) = without_prompt-shown a

access-hide : (c : Option ReportCrawl) → access_of (hide_crawl c) ≡ access_of c
access-hide none = refl
access-hide (some c) = refl

kit-hide : (report : ReportDocument) → kit_of (hide report) ≡ kit_of report
unfolding hide kit_language questions_text
kit-hide report = rw (prompts-hide_cluster report.clusters) refl

abbrev first_query : Kit → List ReportCluster → Option Text
first_query k cs = query_text (head? (select k 1 0 [] cs))

sample_query-hide :
    (report : ReportDocument) → sample_citation_query (hide report) ≡ sample_citation_query report
unfolding hide sample_citation_query kit_language questions_text citation_queries candidates
sample_query-hide report =
    ap (first_query (kit_of (hide report))) (candidates-hide_cluster report.clusters)
    ∙ ap (λ qs. query_text (head? qs))
        (select-hide_cluster (kit_of (hide report)) 1 0 [] (candidates report))
    ∙ ap (λ k. first_query k (candidates report)) (kit-hide report)

-- The preview of a report is the preview of the report without its paid parts.
pub to_preview_doc-hide :
    (report : ReportDocument) → to_preview_doc (hide report) ≡ to_preview_doc report
unfolding to_preview_doc hide
to_preview_doc-hide report =
    rw (length-map (hide_action (top_action report.actions)) report.actions) (
      rw (top_action-hidden report.actions) (
        rw (remaining-hidden report.actions (top_action report.actions)) (
          rw (sample-hidden report.actions (top_action report.actions))
            (rw (access-hide report.crawl) (rw (sample_query-hide report) refl)))))
