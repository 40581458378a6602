-- ===== src/Scans/Insights/Distribution.antt =====
-- The share of sites that a score beats: apps/web/lib/scans/distribution.ts.
pub mod Share
use geo_readiness.Common.{
  ℕ, ◌+◌, ◌*◌, ◌/◌, Bool, Option, none, some, List, [], ◌∷◌, ltb, if◌then◌else◌, keep, length, map,
}
use geo_readiness.Common.Text.{Text}
use geo_readiness.Common.Sort.{sort_by}
use geo_readiness.Store.{World, M, select, return, ◌>>=◌}
use geo_readiness.Report.{Score}
use geo_readiness.Scans.Insights.{Reader, dated_rows, latest_rows, enough, or_none}

-- `Number(null)` is 0: a report without a score counts as one of score 0.
abbrev pub score_or_zero : Option Score → Score
score_or_zero none = 0
score_or_zero (some s) = s

-- The latest score of each domain, the lowest first.
unfoldable pub scores : Reader → M (List Score)
scores reader = do
  rows ← select (λ now db. latest_rows reader.collates (dated_rows db))
  return (sort_by ltb (map (λ r. score_or_zero (reader.stored_score r.content)) rows))

pub record Percentile : Type 0 where
  pub percentile : ℕ
  pub sample_size : ℕ

-- `Math.round(a / b)`
abbrev pub round_ratio : ℕ → ℕ → ℕ
round_ratio a b = (2 * a + b) / (2 * b)

abbrev pub below : Score → List Score → ℕ
below score ss = length (keep (λ s. ltb s score) ss)

unfoldable pub percentile_of : Score → List Score → Option Percentile
percentile_of score ss = enough ss (
    some (record {
      percentile = round_ratio (100 * below score ss) (length ss);
      sample_size = length ss;
    }))

unfoldable pub score_percentile : Reader → Score → World → Option Percentile
score_percentile reader score w =
    or_none ((do ss ← scores reader; return (percentile_of score ss)) w)
