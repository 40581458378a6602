-- ===== src/Report/Level.antt =====
-- The level of a score: `scoreLevel` of apps/web/lib/readiness.ts. A score above 100 throws; none is
-- below 0 or not finite here.
use geo_readiness.Common.{ℕ, ◌*◌, Option, none, some, ltb, leb, if◌then◌else◌}
use geo_readiness.Report.{Score}

pub data ReadinessLevel : Type 0 where
  excellent strong good needs_improvement weak : ReadinessLevel

abbrev pub points : ℕ → Score
points n = n * 10000

unfoldable pub score_level : Score → Option ReadinessLevel
score_level score =
    if ltb (points 100) score
    then none
    else if leb (points 90) score
    then some excellent
    else if leb (points 80) score
    then some strong
    else if leb (points 65) score
    then some good
    else if leb (points 50) score
    then some needs_improvement
    else some weak
