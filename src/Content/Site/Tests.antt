-- ===== src/Content/Site/Tests.antt =====
-- The lists of the site agree with each other.
use geo_readiness.Common.{◌≡◌, refl, true, not, every, any, is_some, map, length}
use geo_readiness.Common.Text.{codes, has_text, starts_with}
use geo_readiness.Common.Words.{nub}
use geo_readiness.Content.Glossary.FirstTerms.{first_terms}
use geo_readiness.Content.Glossary.MoreTerms.{more_terms}
use geo_readiness.Content.Segments.Kinds.{local_business, online_shop, comparison_site}
use geo_readiness.Content.Segments.MoreKinds.{saas, service_business, one_page_site}
use geo_readiness.Content.Registry.{component_guide}
use geo_readiness.Content.Registry.FirstEntries.{first_entries}
use geo_readiness.Content.Registry.MoreEntries.{more_entries}
use geo_readiness.Content.Site.{
  glossary, glossary_term, segments, segment, content, content_by_category, marketing,
  sitemap_pages, absolute_url, sitemap, disallowed,
}

site : Unit {0}
unfolding first_terms more_terms local_business online_shop comparison_site saas service_business
    one_page_site component_guide first_entries more_entries glossary glossary_term segments segment
    content content_by_category marketing sitemap_pages absolute_url sitemap disallowed nub
site = tt

-- Every related slug is a term.
test_related :
    every (λ t. every (λ slug. has_text slug (map (λ u. u.slug) glossary)) t.related) glossary
    ≡ true
unfolding site
test_related = refl

-- Every guide is a page of content.
test_guides : every (λ g. has_text g.1 (map (λ c. c.slug) content)) component_guide ≡ true
unfolding site
test_guides = refl

-- No page of the sitemap is disallowed.
test_allowed : every (λ p. not (any (λ d. starts_with d p.path) disallowed)) sitemap_pages ≡ true
unfolding site
test_allowed = refl

-- No page is listed twice.
test_distinct : length (nub (map (λ p. p.path) sitemap_pages)) ≡ length sitemap_pages
unfolding site
test_distinct = refl

test_lookups :
    (is_some (segment (codes "saas")) ≡ true) × (is_some (glossary_term (codes "geo")) ≡ true)
unfolding site
test_lookups = (refl, refl)

test_categories : length content_by_category.comparisons ≡ 1
unfolding site
test_categories = refl
