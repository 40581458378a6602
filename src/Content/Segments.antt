-- ===== src/Content/Segments.antt =====
-- Kinds of sites: apps/web/lib/content/segments.ts. A pitfall is its heading and text, a frequent
-- question its question and answer.
pub mod Kinds
pub mod MoreKinds
use geo_readiness.Common.{List}
use geo_readiness.Common.Text.{Text}

pub record Segment : Type 0 where
  pub slug : Text
  pub name : Text
  pub title : Text
  pub description : Text
  pub intro : Text
  pub questions : List Text
  pub reads : List Text
  pub pitfalls : List (Text × Text)
  pub faqs : List (Text × Text)
  pub updated : Text
