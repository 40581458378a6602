-- ===== src/Content/Site.antt =====
-- What the site lists: the lookups of apps/web/lib/content, `absoluteUrl` of apps/web/lib/seo/site.ts,
-- apps/web/app/sitemap.ts and apps/web/app/robots.ts. The URL of the site comes from the environment;
-- times of change are left out.
mod Tests
use geo_readiness.Common.{
  ℕ, Bool, true, false, Option, none, some, List, [], ◌∷◌, ◌++◌, find?, if◌then◌else◌, map, any,
}
use geo_readiness.Common.Text.{Text, codes, text_eq, starts_with}
use geo_readiness.Content.Glossary.{GlossaryTerm}
use geo_readiness.Content.Glossary.FirstTerms.{first_terms}
use geo_readiness.Content.Glossary.MoreTerms.{more_terms}
use geo_readiness.Content.Segments.{Segment}
use geo_readiness.Content.Segments.Kinds.{local_business, online_shop, comparison_site}
use geo_readiness.Content.Segments.MoreKinds.{saas, service_business, one_page_site}
use geo_readiness.Content.Registry.{
  ContentCategory, explainer, comparison, guide, reference, ContentEntry,
}
use geo_readiness.Content.Registry.FirstEntries.{first_entries}
use geo_readiness.Content.Registry.MoreEntries.{more_entries}

unfoldable pub glossary : List GlossaryTerm
glossary = first_terms ++ more_terms

unfoldable pub glossary_term : Text → Option GlossaryTerm
glossary_term slug = find? (λ t. text_eq t.slug slug) glossary

unfoldable pub segments : List Segment
segments =
    local_business ∷ online_shop ∷ comparison_site ∷ saas ∷ service_business ∷ one_page_site ∷ []

unfoldable pub segment : Text → Option Segment
segment slug = find? (λ s. text_eq s.slug slug) segments

unfoldable pub content : List ContentEntry
content = first_entries ++ more_entries

pub record ByCategory : Type 0 where
  pub explainers : List ContentEntry
  pub comparisons : List ContentEntry
  pub guides : List ContentEntry
  pub references : List ContentEntry

-- `out[e.category].push(e)`
abbrev pub push : ContentEntry → ContentCategory → ByCategory → ByCategory
push e explainer out = record out { explainers = out.explainers ++ e ∷ [] }
push e comparison out = record out { comparisons = out.comparisons ++ e ∷ [] }
push e guide out = record out { guides = out.guides ++ e ∷ [] }
push e reference out = record out { references = out.references ++ e ∷ [] }

abbrev pub push_all : List ContentEntry → ByCategory → ByCategory
push_all [] out = out
push_all (e ∷ es) out = push_all es (push e e.category out)

unfoldable pub content_by_category : ByCategory
content_by_category =
    push_all content (record { explainers = []; comparisons = []; guides = []; references = [] })

-- A page of the sitemap: its path, how often it changes, and its priority in tenths.
pub record SitemapEntry : Type 0 where
  pub path : Text
  pub change_frequency : Text
  pub priority : ℕ

abbrev page : Text → ℕ → Text → SitemapEntry
page path priority change_frequency = record {
  path = path;
  change_frequency = change_frequency;
  priority = priority;
}

unfoldable pub marketing : List SitemapEntry
marketing =
    page (codes "/") 10 (codes "weekly")
    ∷ page (codes "/product") 9 (codes "monthly")
    ∷ page (codes "/case-studies") 7 (codes "monthly")
    ∷ page (codes "/pricing") 8 (codes "monthly")
    ∷ page (codes "/about") 6 (codes "monthly")
    ∷ page (codes "/contact") 6 (codes "yearly")
    ∷ page (codes "/learn") 7 (codes "weekly")
    ∷ page (codes "/insights") 8 (codes "weekly")
    ∷ page (codes "/ai-crawler-check") 9 (codes "monthly")
    ∷ page (codes "/badge") 5 (codes "yearly")
    ∷ page (codes "/imprint") 3 (codes "yearly")
    ∷ page (codes "/privacy") 3 (codes "yearly")
    ∷ []

unfoldable pub sitemap_pages : List SitemapEntry
sitemap_pages =
    marketing
    ++ (map (λ c. page c.slug 6 (codes "monthly")) content
        ++ (map (λ t. page (codes "/glossary/" ++ t.slug) 5 (codes "monthly")) glossary
            ++ map (λ s. page (codes "/for/" ++ s.slug) 7 (codes "monthly")) segments))

unfoldable pub absolute_url : Text → Text → Text
absolute_url site_url path =
    site_url ++ (if starts_with (codes "/") path then path else codes "/" ++ path)

-- The entries with their URLs.
unfoldable pub sitemap : Text → List (Text × SitemapEntry)
sitemap site_url = map (λ p. (absolute_url site_url p.path, p)) sitemap_pages

-- The one group of the site's robots.txt.
unfoldable pub disallowed : List Text
disallowed = codes "/api/" ∷ codes "/report/" ∷ codes "/scan/" ∷ codes "/admin/" ∷ []
