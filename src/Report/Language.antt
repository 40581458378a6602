-- ===== src/Report/Language.antt =====
-- The language that a crawl retrieved: apps/web/lib/report/crawlLanguage.ts.
use geo_readiness.Common.{
  Option, none, some, List, [], ◌∷◌, ltb, not, if◌then◌else◌, keep, length, map,
}
use geo_readiness.Common.Text.{Text, codes, text_eq}
use geo_readiness.Common.Words.{not_empty, nub}
use geo_readiness.Report.{ReportDocument}
use geo_readiness.Report.Citation.{KitLang, en, de, base_language, kit_language}
use geo_readiness.Report.Humanize.{entry_or}

abbrev pub language_names : List (Text × Text)
language_names =
    (codes "de", codes "German")
    ∷ (codes "en", codes "English")
    ∷ (codes "es", codes "Spanish")
    ∷ (codes "fr", codes "French")
    ∷ (codes "it", codes "Italian")
    ∷ (codes "nl", codes "Dutch")
    ∷ (codes "pt", codes "Portuguese")
    ∷ (codes "pl", codes "Polish")
    ∷ []

-- `toUpperCase` is a parameter; it is called for bases without a name.
unfoldable pub language_name : (Text → Text) → Text → Text
language_name upper code =
    let base = base_language code in entry_or base (upper base) language_names

pub record CrawlLanguageInfo : Type 0 where
  pub language : Text
  pub others : List Text

abbrev pub lang_code : KitLang → Text
lang_code en = codes "en"
lang_code de = codes "de"

abbrev info_of : (Text → Text) → KitLang → List Text → Option CrawlLanguageInfo
info_of upper crawl bases =
    if ltb (length bases) 2
    then none
    else some (record {
      language = language_name upper (lang_code crawl);
      others = map (language_name upper) (keep (λ b. not (text_eq b (lang_code crawl))) bases);
    })

unfoldable pub crawl_language_info : (Text → Text) → ReportDocument → Option CrawlLanguageInfo
crawl_language_info upper report =
    info_of upper (kit_language report)
      (nub (not_empty (map base_language report.business_profile.languages)))
