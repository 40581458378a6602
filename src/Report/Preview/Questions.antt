-- ===== src/Report/Preview/Questions.antt =====
-- The questions of the citation test need little of a cluster: apps/web/lib/report/citationTest.ts.
use geo_readiness.Common.{
  ℕ, zero, suc, ◌≡◌, refl, ap, ◌∙◌, Bool, List, [], ◌∷◌, ◌++◌, ltb, keep, map, Bool-cases, inl, inr,
}
use geo_readiness.Common.Text.{Text}
use geo_readiness.Common.Sort.{sort_by, sort_by-map}
use geo_readiness.Report.{ReportCluster}
use geo_readiness.Report.Citation.{
  Kit, select, is_candidate, text_or_empty, is_taken, query_of, core_of, citation_query,
}

-- What the questions of the citation test need is left of a cluster.
abbrev pub hide_cluster : ReportCluster → ReportCluster
hide_cluster c = record c {
  cluster_key = [];
  label = [];
  coverage_score = 0;
  requirements = [];
  missing_requirements = [];
}

keep-hide_cluster :
    (cs : List ReportCluster)
    → keep is_candidate (map hide_cluster cs) ≡ map hide_cluster (keep is_candidate cs)
keep-hide_cluster [] = refl
keep-hide_cluster (c ∷ cs) = elim (Bool-cases (is_candidate c)) [
  | inl e ↦ rw e (ap (λ ds. hide_cluster c ∷ ds) (keep-hide_cluster cs))
  | inr e ↦ rw e (keep-hide_cluster cs)
]

abbrev pub more_important : ReportCluster → ReportCluster → Bool
more_important a b = ltb b.priority a.priority

pub candidates-hide_cluster :
    (cs : List ReportCluster)
    → sort_by more_important (keep is_candidate (map hide_cluster cs))
      ≡ map hide_cluster (sort_by more_important (keep is_candidate cs))
candidates-hide_cluster cs =
    ap (sort_by more_important) (keep-hide_cluster cs)
    ∙ sort_by-map more_important hide_cluster (λ a b. refl) (keep is_candidate cs)

pub prompts-hide_cluster :
    (cs : List ReportCluster)
    → map (λ c. text_or_empty c.sample_prompt) (map hide_cluster cs)
      ≡ map (λ c. text_or_empty c.sample_prompt) cs
prompts-hide_cluster [] = refl
prompts-hide_cluster (c ∷ cs) =
    ap (λ ts. text_or_empty c.sample_prompt ∷ ts) (prompts-hide_cluster cs)

pub select-hide_cluster :
    (k : Kit) (left n : ℕ) (accepted : List Text) (cs : List ReportCluster)
    → select k left n accepted (map hide_cluster cs) ≡ select k left n accepted cs
unfolding select is_taken query_of
select-hide_cluster k zero n accepted cs = refl
select-hide_cluster k (suc left) n accepted [] = refl
select-hide_cluster k (suc left) n accepted (c ∷ cs) = elim (Bool-cases (is_taken k accepted c)) [
  | inl e ↦ rw e (
      ap (λ qs. citation_query k n c ∷ qs)
        (select-hide_cluster k left (suc n) (accepted ++ core_of k.lang (query_of k c) ∷ []) cs))
  | inr e ↦ rw e (select-hide_cluster k (suc left) n accepted cs)
]
