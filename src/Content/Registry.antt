-- ===== src/Content/Registry.antt =====
-- The registry of content pages: apps/web/lib/content/registry.ts.
pub mod FirstEntries
pub mod MoreEntries
use geo_readiness.Common.{List, [], ◌∷◌}
use geo_readiness.Common.Text.{Text, codes}

pub data ContentCategory : Type 0 where
  explainer comparison guide reference : ContentCategory

pub record ContentEntry : Type 0 where
  pub slug : Text
  pub title : Text
  pub description : Text
  pub category : ContentCategory
  pub updated : Text

-- The guide for each component of a report.
unfoldable pub component_guide : List (Text × Text)
component_guide =
    (codes "entity_clarity", codes "/guides/entity-clarity")
    ∷ (codes "offer_clarity", codes "/guides/offer-clarity")
    ∷ (codes "prompt_coverage", codes "/guides/prompt-coverage")
    ∷ (codes "sourceability", codes "/guides/sourceability")
    ∷ (codes "structured_data", codes "/guides/structured-data")
    ∷ (codes "evidence_trust", codes "/guides/evidence-and-trust")
    ∷ (codes "technical_access", codes "/guides/technical-accessibility")
    ∷ []
