-- ===== src/Report/Humanize.antt =====
-- Names of offerings for display: apps/web/lib/report/humanize.ts.
use geo_readiness.Common.{List, [], ◌∷◌, if◌then◌else◌, length, map}
use geo_readiness.Common.Text.{Text, codes, text_eq, is_empty, starts_with, trim, lower, join}
use geo_readiness.Common.Words.{drop, split_space}

abbrev pub articles : List Text
articles = codes "the " ∷ codes "a " ∷ codes "an " ∷ []

abbrev pub acronyms : List (Text × Text)
acronyms =
    (codes "ai", codes "AI")
    ∷ (codes "seo", codes "SEO")
    ∷ (codes "geo", codes "GEO")
    ∷ (codes "api", codes "API")
    ∷ (codes "saas", codes "SaaS")
    ∷ (codes "b2b", codes "B2B")
    ∷ (codes "b2c", codes "B2C")
    ∷ (codes "crm", codes "CRM")
    ∷ (codes "erp", codes "ERP")
    ∷ (codes "hr", codes "HR")
    ∷ (codes "it", codes "IT")
    ∷ (codes "ux", codes "UX")
    ∷ (codes "ui", codes "UI")
    ∷ (codes "kpi", codes "KPI")
    ∷ (codes "roi", codes "ROI")
    ∷ (codes "llm", codes "LLM")
    ∷ (codes "iot", codes "IoT")
    ∷ (codes "pdf", codes "PDF")
    ∷ []

-- `table[key] ?? fallback`
abbrev pub entry_or : Text → Text → List (Text × Text) → Text
entry_or key fallback [] = fallback
entry_or key fallback ((k, v) ∷ entries) =
    if text_eq k key then v else entry_or key fallback entries

-- The first article that the lower-cased text opens with is dropped.
abbrev drop_article : List Text → Text → Text → Text
drop_article [] low v = v
drop_article (a ∷ more) low v =
    let rest = drop_article more low v in
    if starts_with a low then trim (drop (length a) v) else rest

unfoldable pub humanize_offering : Text → Text
humanize_offering value =
    let v = trim value in
    join (32 ∷ []) (
      map (λ tok. entry_or (lower tok) tok acronyms)
        (split_space (drop_article articles (lower v) v)))

abbrev pub or_text : Text → Text → Text
or_text t fallback = if is_empty t then fallback else t

-- With "None" for the fallback where none is given.
unfoldable pub humanize_offering_list : List Text → Text → Text
humanize_offering_list values fallback =
    or_text (join (codes ", ") (map humanize_offering values)) fallback
