-- ===== src/Scans/Insights.antt =====
-- The numbers over all scanned sites: apps/web/lib/scans/insights.ts; `Distribution` is
-- apps/web/lib/scans/distribution.ts and `Crawlers` the benchmark of AI crawlers. How a stored report reads, and the
-- order of the data base on domains, are parameters. The cache, which repeats an answer for an hour,
-- is left out. An average is a sum with its count, and two are compared by cross products.
pub mod Latest
pub mod Signals
pub mod Distribution
pub mod Crawlers
pub mod Buckets
mod Tests
use geo_readiness.Common.{
  ℕ, ◌+◌, ◌*◌, Bool, true, false, Option, none, some, List, [], ◌∷◌, ◌&&◌, ◌||◌, not, ltb, leb,
  if◌then◌else◌, keep, length, map, flatten, present,
}
use geo_readiness.Common.Text.{Text, codes, text_eq, is_empty, has_text}
use geo_readiness.Common.Words.{nub}
use geo_readiness.Common.Sort.{sort_by}
use geo_readiness.Errors.{Outcome, ok, err}
use geo_readiness.Store.{uuid_eq, Db, World, M, Report, Scan, Project, select, return, ◌>>=◌}
use geo_readiness.Scans.Repository.{last_by}
use geo_readiness.Report.{Score}
use geo_readiness.Report.Level.{points}

abbrev pub min_sites : ℕ
min_sites = 10

-- A component of a stored report, whose fields may be missing; the score is what `Number` makes of
-- it, none where that is not finite.
pub record PreviewComponent : Type 0 where
  pub key : Option Text
  pub name : Option Text
  pub score : Option Score
  pub level : Option Text
  pub applicable : Option Bool

-- What a stored report says: the overall score is what `Number` makes of it, none where that is not
-- finite; components that are no array are none.
pub record Stored : Type 0 where
  pub overall_score : Option Score
  pub components : Option (List PreviewComponent)

pub record SiteComponent : Type 0 where
  pub key : Text
  pub name : Text
  pub score : Option Score
  pub level : Text
  pub applicable : Bool

pub record DomainReport : Type 0 where
  pub overall : Score
  pub components : List SiteComponent

-- A row of `reports JOIN scans JOIN projects`.
pub record Dated : Type 0 where
  pub domain : Text
  pub created_at : ℕ
  pub content : Text

abbrev dated : Report → Project → Dated
dated r p = record { domain = p.canonical_domain; created_at = r.created_at; content = r.content }

-- The rows of the reports of the scans of the projects.
unfoldable pub dated_rows : Db → List Dated
dated_rows db = flatten (
    map
      (λ r. flatten (
        map (λ s. map (dated r) (keep (λ p. uuid_eq p.id s.project_id) db.projects))
          (keep (λ s. uuid_eq s.id r.scan_id) db.scans)))
      db.reports)

abbrev pub of_domain : Text → List Dated → List Dated
of_domain domain rows = keep (λ r. text_eq r.domain domain) rows

abbrev pub latest_of : List Dated → Text → Option Dated
latest_of rows domain = last_by (λ r. r.created_at) (of_domain domain rows)

-- `DISTINCT ON (domain) … ORDER BY domain, created_at DESC`
unfoldable pub latest_rows : (Text → Text → Bool) → List Dated → List Dated
latest_rows collates rows =
    present (map (latest_of rows) (sort_by collates (nub (map (λ r. r.domain) rows))))

abbrev text_or : Option Text → Text → Text
text_or none d = d
text_or (some t) d = t

abbrev is_not_false : Option Bool → Bool
is_not_false none = true
is_not_false (some b) = b

abbrev pub site_component : PreviewComponent → SiteComponent
site_component c = record {
  key = text_or c.key [];
  name = text_or c.name (text_or c.key []);
  score = c.score;
  level = text_or c.level [];
  applicable = is_not_false c.applicable;
}

-- A report without a finite score or without components is skipped.
abbrev pub domain_report : Stored → Option DomainReport
domain_report s = elim s.overall_score [
  | none ↦ none
  | some overall ↦ elim s.components [
    | none ↦ none
    | some cs ↦ some (record { overall = overall; components = map site_component cs })
  ]
]

-- How stored reports read, and how the data base orders domains. A verdict on crawlers that is null
-- reads as one without entries, which the program treats alike.
pub record Reader : Type 0 where
  pub collates : Text → Text → Bool
  pub stored : Text → Stored
  pub stored_score : Text → Option Score
  pub stored_access : Text → Option (List (Text × Bool))

unfoldable pub latest_per_domain : Reader → M (List DomainReport)
latest_per_domain reader = do
  rows ← select (λ now db. latest_rows reader.collates (dated_rows db))
  return (present (map (λ r. domain_report (reader.stored r.content)) rows))

abbrev pub enough {ℓ} : {A B : Type ℓ} → List A → Option B → Option B
enough sample b = if ltb (length sample) min_sites then none else b

-- `catch { return null }`
abbrev pub or_none {ℓ} : {A : Type ℓ} → Outcome (Option A) × World → Option A
or_none (ok a, w) = a
or_none (err e, w) = none
