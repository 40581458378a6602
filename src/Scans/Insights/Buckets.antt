-- ===== src/Scans/Insights/Buckets.antt =====
-- Which reports the buckets of apps/web/lib/scans/insights.ts count.
use geo_readiness.Common.{
  ℕ, ◌+◌, ◌≡◌, refl, Bool, true, false, List, [], ◌∷◌, ◌&&◌, ◌||◌, ltb, keep, length, arith,
  Bool-cases, inl, inr,
}
use geo_readiness.Report.Level.{points}
use geo_readiness.Scans.Insights.{DomainReport}
use geo_readiness.Scans.Insights.Signals.{ScoreBucket, buckets, is_within}

abbrev pub total_count : List ScoreBucket → ℕ
total_count [] = 0
total_count (b ∷ bs) = b.count + total_count bs

abbrev is_between : ℕ → ℕ → DomainReport → Bool
is_between a b r = ltb (points a) r.overall && ltb r.overall (points b)

-- The score lies strictly between two bands, or above 100.
abbrev pub is_in_gap : DomainReport → Bool
is_in_gap r =
    is_between 24 25 r
    || is_between 49 50 r
    || is_between 69 70 r
    || is_between 84 85 r
    || ltb (points 100) r.overall

abbrev one_if : Bool → ℕ
one_if true = 1
one_if false = 0

keep-cons :
    (p : DomainReport → Bool) (r : DomainReport) (rs : List DomainReport)
    → length (keep p (r ∷ rs)) ≡ one_if (p r) + length (keep p rs)
keep-cons p r rs = elim (Bool-cases (p r)) [
  | inl e ↦ rw e (omega arith)
  | inr e ↦ rw e (omega arith)
]

one_band :
    (r : DomainReport)
    → one_if (is_within 0 24 r)
        + one_if (is_within 25 49 r)
        + one_if (is_within 50 69 r)
        + one_if (is_within 70 84 r)
        + one_if (is_within 85 100 r)
        + one_if (is_in_gap r)
      ≡ 1
one_band r = ground arith

-- The buckets count each report once, except those whose score lies strictly between two bands or
-- above 100, which no bucket counts.
pub buckets-gaps :
    (reports : List DomainReport)
    → total_count (buckets reports) + length (keep is_in_gap reports) ≡ length reports
unfolding buckets
buckets-gaps [] = refl
buckets-gaps (r ∷ rs) = omega (
  arith,
  buckets-gaps rs,
  one_band r,
  keep-cons (is_within 0 24) r rs,
  keep-cons (is_within 25 49) r rs,
  keep-cons (is_within 50 69) r rs,
  keep-cons (is_within 70 84) r rs,
  keep-cons (is_within 85 100) r rs,
  keep-cons is_in_gap r rs,
)
