-- ===== src/Report/Citation/Select.antt =====
-- How the limit bears on the questions of apps/web/lib/report/citationTest.ts.
use geo_readiness.Common.{
  ℕ, zero, suc, ◌≤◌, ◌≡◌, refl, List, [], ◌∷◌, take, Bool-cases, inl, inr, arith,
}
use geo_readiness.Common.Text.{Text}
use geo_readiness.Report.{ReportCluster, ReportDocument}
use geo_readiness.Report.Citation.{Kit, is_taken, select, kit_of, candidates, citation_queries}

select-take :
    (k : Kit) (m left n : ℕ) (accepted : List Text) (cs : List ReportCluster)
    → m ≤ left
    → take m (select k left n accepted cs) ≡ select k m n accepted cs
unfolding select
select-take k zero left n accepted cs h = refl
select-take k (suc m) zero n accepted cs h = absurd (omega arith)
select-take k (suc m) (suc left) n accepted [] h = refl
select-take k (suc m) (suc left) n accepted (c ∷ cs) h = elim (Bool-cases (is_taken k accepted c)) [
  | inl e ↦ rw e (rw (select-take k m left (suc n) _ cs (omega arith)) refl)
  | inr e ↦ rw e (select-take k (suc m) (suc left) n accepted cs h)
]

-- A smaller limit gives the first of the questions that a larger one gives.
pub citation_queries-take :
    (report : ReportDocument) (m limit : ℕ)
    → m ≤ limit
    → take m (citation_queries report limit) ≡ citation_queries report m
unfolding citation_queries
citation_queries-take report m limit h =
    select-take (kit_of report) m limit 0 [] (candidates report) h
