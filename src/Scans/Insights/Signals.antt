-- ===== src/Scans/Insights/Signals.antt =====
-- The averages of the signals and the benchmark of readiness: `signalInsights` and
-- `readinessBenchmark` of apps/web/lib/scans/insights.ts.
use geo_readiness.Common.{
  ℕ, ◌+◌, ◌*◌, Bool, Option, none, some, List, [], ◌∷◌, ◌&&◌, ◌||◌, not, ltb, leb, if◌then◌else◌,
  keep, length, map, flatten,
}
use geo_readiness.Common.Text.{Text, codes, text_eq, is_empty, has_text}
use geo_readiness.Common.Sort.{sort_by}
use geo_readiness.Store.{World, return, ◌>>=◌}
use geo_readiness.Report.{Score}
use geo_readiness.Report.Level.{points}
use geo_readiness.Scans.Insights.{
  Reader, SiteComponent, DomainReport, latest_per_domain, enough, or_none,
}

-- What is summed up of a signal. `weak` is looked at by the benchmark of readiness only.
pub record Sum : Type 0 where
  pub key : Text
  pub name : Text
  pub sum : Score
  pub n : ℕ
  pub weak : ℕ

abbrev weak_levels : List Text
weak_levels = codes "Weak" ∷ codes "Needs improvement" ∷ []

abbrev pub weak_count : Text → ℕ
weak_count level = if has_text level weak_levels then 1 else 0

abbrev pub add_to : SiteComponent → Score → Sum → Sum
add_to c score e = record e { sum = e.sum + score; n = e.n + 1; weak = e.weak + weak_count c.level }

-- `acc.set(key, …)`: a key keeps its place and the name it came with.
abbrev pub add_score : SiteComponent → Score → List Sum → List Sum
add_score c score [] =
    record { key = c.key; name = c.name; sum = score; n = 1; weak = weak_count c.level } ∷ []
add_score c score (e ∷ acc) =
    let rest = e ∷ add_score c score acc in
    if text_eq e.key c.key then add_to c score e ∷ acc else rest

abbrev pub add_component : SiteComponent → List Sum → List Sum
add_component c acc =
    if not c.applicable || is_empty c.key
    then acc
    else elim c.score [ none ↦ acc | some score ↦ add_score c score acc ]

abbrev pub add_components : List SiteComponent → List Sum → List Sum
add_components [] acc = acc
add_components (c ∷ cs) acc = add_components cs (add_component c acc)

unfoldable pub sums : List DomainReport → List Sum
sums reports = add_components (flatten (map (λ r. r.components) reports)) []

-- The weakest average first.
abbrev pub weaker : Sum → Sum → Bool
weaker a b = ltb (a.sum * b.n) (b.sum * a.n)

pub record SignalInsights : Type 0 where
  pub sample_size : ℕ
  pub signals : List Sum

abbrev pub insights_of : List DomainReport → List Sum → Option SignalInsights
insights_of reports [] = none
insights_of reports (e ∷ es) =
    some (record { sample_size = length reports; signals = sort_by weaker (e ∷ es) })

unfoldable pub signal_insights : Reader → World → Option SignalInsights
signal_insights reader w = or_none (
    (do
      reports ← latest_per_domain reader
      return (enough reports (insights_of reports (sums reports))))
      w)

pub record ScoreBucket : Type 0 where
  pub label : Text
  pub min : ℕ
  pub max : ℕ
  pub count : ℕ

abbrev pub bands : List (Text × (ℕ × ℕ))
bands =
    (codes "Weak (0–24)", (0, 24))
    ∷ (codes "Light (25–49)", (25, 49))
    ∷ (codes "Medium (50–69)", (50, 69))
    ∷ (codes "Strong (70–84)", (70, 84))
    ∷ (codes "Excellent (85–100)", (85, 100))
    ∷ []

abbrev pub is_within : ℕ → ℕ → DomainReport → Bool
is_within min max r = leb (points min) r.overall && leb r.overall (points max)

abbrev pub bucket : List DomainReport → Text × (ℕ × ℕ) → ScoreBucket
bucket reports (label, (min, max)) = record {
  label = label;
  min = min;
  max = max;
  count = length (keep (is_within min max) reports);
}

unfoldable pub buckets : List DomainReport → List ScoreBucket
buckets reports = map (bucket reports) bands

abbrev pub total : List DomainReport → Score
total [] = 0
total (r ∷ reports) = r.overall + total reports

-- `overall_sum` is the sum behind `overallAvg`.
pub record ReadinessBenchmark : Type 0 where
  pub sample_size : ℕ
  pub overall_sum : Score
  pub signals : List Sum
  pub score_buckets : List ScoreBucket

abbrev pub benchmark_of : List DomainReport → List Sum → Option ReadinessBenchmark
benchmark_of reports [] = none
benchmark_of reports (e ∷ es) = some (record {
  sample_size = length reports;
  overall_sum = total reports;
  signals = sort_by weaker (e ∷ es);
  score_buckets = buckets reports;
})

unfoldable pub readiness_benchmark : Reader → World → Option ReadinessBenchmark
readiness_benchmark reader w = or_none (
    (do
      reports ← latest_per_domain reader
      return (enough reports (benchmark_of reports (sums reports))))
      w)
