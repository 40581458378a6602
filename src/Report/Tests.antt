-- ===== src/Report/Tests.antt =====
-- Reports at a concrete input.
use geo_readiness.Common.{All, some, ◌≡◌, ◌≢◌, refl, [], ◌∷◌, ◌++◌, map}
use geo_readiness.Common.Text.{codes, lower, trim, before}
use geo_readiness.Common.Words.{
  count_words, remove_word, squeeze, tighten, contains, remove_first, split_space, nub, show_number,
}
use geo_readiness.Common.Sort.{sort_by, place}
use geo_readiness.Report.{ReportCluster, ReportDocument}
use geo_readiness.Report.Sample.{acme}
use geo_readiness.Report.Citation.{
  en, citation_queries, core_of, asked, candidates, kit_language, questions_text, select, is_taken,
  query_of, is_well_formed, near_duplicate, neutralize, needles, domain_core, strip_question,
  names_brand, names_domain, is_dangling, word_set, overlaps, query_id, base_language, kit_of,
  german_words,
}
use geo_readiness.Report.Citation.Blind.{Names, by_brand, citation_queries-Hidden}
use geo_readiness.Report.Preview.{to_preview_doc, top_action}
use geo_readiness.Report.Humanize.{humanize_offering}
use geo_readiness.Report.Markdown.{report_file_base}

texts : Unit {0}
unfolding before lower trim count_words remove_word squeeze tighten contains remove_first
    split_space nub show_number sort_by place citation_queries core_of asked candidates kit_language
    questions_text select is_taken query_of is_well_formed near_duplicate neutralize needles
    domain_core strip_question names_brand names_domain is_dangling word_set overlaps query_id
    base_language to_preview_doc top_action humanize_offering report_file_base
texts = tt

test_ids : map (λ q. q.qid) (citation_queries acme 5) ≡ codes "Q01" ∷ codes "Q02" ∷ []
unfolding texts
test_ids = refl

test_questions :
    map (λ q. q.query) (citation_queries acme 1)
    ≡ codes
        "How does make rockets? Search the web and answer using current, credible sources. Cite the sources you rely on."
      ∷ []
unfolding texts
test_questions = refl

-- A word that opens or ends in a letter with a mark is not found.
test_marked_words : count_words german_words (codes "was ist über uns") ≡ 1
unfolding texts
test_marked_words = refl

test_severities : (to_preview_doc acme).issue_severities ≡ codes "high" ∷ []
unfolding texts
test_severities = refl

test_humanized : humanize_offering (codes " The SEO audit") ≡ codes "SEO audit"
unfolding texts
test_humanized = refl

test_file : report_file_base acme ≡ codes "geo-readiness-acme-com"
unfolding texts
test_file = refl

acme-Names : Names (kit_of acme) (codes "acme")
unfolding texts
acme-Names = by_brand (codes "Acme") refl refl refl

citation_queries-Hidden_example :
    All
      (λ q.
        lower (core_of (kit_of acme).lang q.query) ≢ codes "see " ++ (codes "acme" ++ codes " now"))
      (citation_queries acme 5)
citation_queries-Hidden_example =
    citation_queries-Hidden acme 5 (codes "see ") (codes "acm") (codes " now") b'e' (refl, refl)
      acme-Names

-- A brand that ends in a question mark is handed out.
abbrev asks : ReportCluster → ReportCluster
asks c = record c { sample_prompt = some (codes "Which shops sell rockets like Yeah?") }

abbrev asking : ReportDocument
asking = record acme {
  clusters = map asks acme.clusters;
  business_profile = record acme.business_profile { brand_name = some (codes "Yeah?") };
}

test_brand_asks :
    map (λ q. core_of en q.query) (citation_queries asking 1)
    ≡ codes "Which shops sell rockets like Yeah?" ∷ []
unfolding texts
test_brand_asks = refl
