-- ===== src/Scans/Insights/Distribution/Share.antt =====
-- What a percentile of apps/web/lib/scans/distribution.ts may be.
use geo_readiness.Common.{
  ℕ, ◌+◌, ◌*◌, ◌/◌, ◌≤◌, ◌<◌, ◌≡◌, ◌≢◌, ◌∙◌, sym, ap, none, some, List, [], ◌∷◌, ltb, length,
  length-keep, arith, Bool-cases, inl, inr, if◌then◌else◌,
}
use geo_readiness.Store.{World, and_then, return}
use geo_readiness.Errors.{Outcome, ok, err}
use geo_readiness.Report.{Score}
use geo_readiness.Scans.Insights.{Reader, enough, or_none, min_sites}
use geo_readiness.Scans.Insights.Distribution.{
  Percentile, round_ratio, below, percentile_of, score_percentile, scores,
}
use native.Mathlib.Nat.{div-lt_iff_lt-mul, le-div_iff_mul-le, div-mul-le_self}

below-le : (a b : Score) (ss : List Score) → a ≤ b → below a ss ≤ below b ss
below-le a b [] h = omega arith
below-le a b (s ∷ ss) h = ground (arith, below-le a b ss)

round_ratio-le : (a b n : ℕ) → 0 < n → a ≤ b → round_ratio a n ≤ round_ratio b n
round_ratio-le a b n pos h =
    (le-div_iff_mul-le {k = 2 * n} {x = (2 * a + n) / (2 * n)} {y = 2 * b + n}
        (omega (arith, pos))).1
      (omega (arith, div-mul-le_self (2 * a + n) (2 * n), h))

round_ratio-le_100 : (a n : ℕ) → 0 < n → a ≤ n → round_ratio (100 * a) n ≤ 100
round_ratio-le_100 a n pos h = omega (
  arith,
  (div-lt_iff_lt-mul {k = 2 * n} {x = 2 * (100 * a) + n} {y = 101} (omega (arith, pos))).1
      (omega (arith, h)),
)

-- Two percentiles over the same scores.
record Ordered (p q : Percentile) : Type 0 where
  pub in_order : p.percentile ≤ q.percentile
  pub at_most_all : q.percentile ≤ 100
  pub is_large : min_sites ≤ q.sample_size

enough_some :
    (ss : List Score) (x p : Percentile)
    → enough ss (some x) ≡ some p
    → (min_sites ≤ length ss) × (x ≡ p)
enough_some ss x p h = elim (Bool-cases (ltb (length ss) min_sites)) [
  | inl e ↦ absurd (none_some (ap (λ b. if b then none else some x) (sym e) ∙ h))
  | inr e ↦ (ground arith, cc (ap (λ b. if b then none else some x) (sym e) ∙ h))
]
  where
    none_some : none ≢ some p
    none_some q = cc

percentile_of-Ordered :
    (a b : Score) (ss : List Score) (p q : Percentile)
    → a ≤ b
    → percentile_of a ss ≡ some p
    → percentile_of b ss ≡ some q
    → Ordered p q
unfolding percentile_of
percentile_of-Ordered a b ss p q h ep eq =
    let (large, p_is) = enough_some ss _ p ep in
    let (_, q_is) = enough_some ss _ q eq in
    record {
      in_order =
          rw (← p_is, ← q_is)
            (round_ratio-le (100 * below a ss) (100 * below b ss) (length ss) (omega (arith, large))
              (omega (arith, below-le a b ss h)));
      at_most_all = rw (← q_is) (
          round_ratio-le_100 (below b ss) (length ss) (omega (arith, large))
            (length-keep (λ s. ltb s b) ss));
      is_large = rw (← q_is) large;
    }

-- Percentiles that are published over the same tables do not fall as the score grows, are at most
-- 100, and count ten sites at least.
pub score_percentile-Ordered :
    (reader : Reader) (a b : Score) (w : World) (p q : Percentile)
    → a ≤ b
    → score_percentile reader a w ≡ some p
    → score_percentile reader b w ≡ some q
    → (p.percentile ≤ q.percentile) × (q.percentile ≤ 100) × (min_sites ≤ q.sample_size)
unfolding score_percentile
score_percentile-Ordered reader a b w p q h ep eq =
    let r = after_scores (scores reader w) ep eq in (r.in_order, r.at_most_all, r.is_large)
  where
    after_scores :
        (o : Outcome (List Score) × World)
        → or_none (and_then (λ ss. return (percentile_of a ss)) o) ≡ some p
        → or_none (and_then (λ ss. return (percentile_of b ss)) o) ≡ some q
        → Ordered p q
    after_scores (ok ss, w') e f = percentile_of-Ordered a b ss p q h e f
    after_scores (err x, w') e f = cc
