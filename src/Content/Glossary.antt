-- ===== src/Content/Glossary.antt =====
-- The glossary: apps/web/lib/content/glossary.ts.
pub mod FirstTerms
pub mod MoreTerms
use geo_readiness.Common.{List}
use geo_readiness.Common.Text.{Text}

pub record GlossaryTerm : Type 0 where
  pub term : Text
  pub slug : Text
  pub def : Text
  pub long : Text
  pub related : List Text
