-- ===== src/Scans/Insights/Crawlers/Counts.antt =====
-- What the benchmark of AI crawlers of apps/web/lib/scans/insights.ts counts.
use geo_readiness.Common.{
  ℕ, ◌+◌, ◌≤◌, ◌≡◌, refl, ap, sym, ◌∙◌, Bool, true, false, List, [], ◌∷◌, ◌&&◌, not, keep, length,
  map, All, every, arith, Bool-cases, inl, inr,
}
use geo_readiness.Common.Text.{Text, text_eq, text_eq_refl, text_eq_iff}
use geo_readiness.Common.Sort.{All-sort_by}
use geo_readiness.Content.Crawlers.{Crawler, crawlers, search, training}
use geo_readiness.Scans.Insights.Crawlers.{
  Access, blocks, blocked_in, tokens_of, count_of, count_up, count_site, count_sites, is_split,
  rate_of, rates, benchmark, more_blocked,
}

-- The tokens of a site, each once, as the keys of an object are.
abbrev pub IsObject : Access → Type 0
IsObject [] = Unit
IsObject ((t, allowed) ∷ site) = (every (λ e. not (text_eq e.0 t)) site ≡ true) × IsObject site

not_both :
    (u t token : Text) → text_eq u t ≡ false → text_eq u token ≡ true → text_eq t token ≡ false
not_both u t token f h = elim (Bool-cases (text_eq t token)) [
  | inl e ↦ absurd (
      true_false (
        sym (text_eq_refl u)
        ∙ ap (text_eq u) ((text_eq_iff u token).0 h ∙ sym ((text_eq_iff t token).0 e))
        ∙ f))
  | inr e ↦ e
]
  where
    true_false : true ≡ false → ⊥
    true_false q = cc

abbrev one_if : Bool → ℕ
one_if true = 1
one_if false = 0

count-count_up :
    (token t : Text) (counts : List (Text × ℕ))
    → count_of token (count_up t counts) ≡ one_if (text_eq t token) + count_of token counts
count-count_up token t [] = elim (Bool-cases (text_eq t token)) [
  | inl e ↦ rw e refl
  | inr e ↦ rw e refl
]
count-count_up token t ((u, n) ∷ counts) = elim (Bool-cases (text_eq u t)) [
  | inl e ↦
      rw (e, ← (ap (λ v. text_eq v token) ((text_eq_iff u t).0 e)))
        (elim (Bool-cases (text_eq u token)) [
          | inl q ↦ rw q (omega arith)
          | inr q ↦ rw q (omega arith)
        ])
  | inr e ↦ rw e (elim (Bool-cases (text_eq u token)) [
    | inl q ↦ rw (q, not_both u t token e q) (omega arith)
    | inr q ↦ rw q (count-count_up token t counts)
  ])
]

blocks_none :
    (token : Text) (site : Access)
    → every (λ e. not (text_eq e.0 token)) site ≡ true
    → blocks site token ≡ false
blocks_none token [] h = refl
blocks_none token ((t, allowed) ∷ site) h = ground (arith, blocks_none token site)

-- A site adds one to the count of each token that it blocks.
count-count_site :
    (token : Text) (site : Access) (counts : List (Text × ℕ))
    → IsObject site
    → count_of token (count_site site counts) ≡ one_if (blocks site token) + count_of token counts
count-count_site token [] counts h = omega arith
count-count_site token ((t, true) ∷ site) counts (fresh, h) = elim (Bool-cases (text_eq t token)) [
  | inl e ↦ rw e (count-count_site token site counts h)
  | inr e ↦ rw e (count-count_site token site counts h)
]
count-count_site token ((t, false) ∷ site) counts (fresh, h) =
    let before =
      count-count_site token site (count_up t counts) h
      ∙ ap (λ n. one_if (blocks site token) + n) (count-count_up token t counts) in
    elim (Bool-cases (text_eq t token)) [
      | inl e ↦ rw e (omega (arith, before, ap one_if e, ap one_if (only_here e)))
      | inr e ↦ rw e (omega (arith, before, ap one_if e))
    ]
  where
    only_here : text_eq t token ≡ true → blocks site token ≡ false
    only_here e =
        blocks_none token site (
          ap (λ v. every (λ x. not (text_eq x.0 v)) site) (sym ((text_eq_iff t token).0 e)) ∙ fresh)

keep-cons :
    (p : Access → Bool) (site : Access) (sites : List Access)
    → length (keep p (site ∷ sites)) ≡ one_if (p site) + length (keep p sites)
keep-cons p site sites = elim (Bool-cases (p site)) [
  | inl e ↦ rw e (omega arith)
  | inr e ↦ rw e (omega arith)
]

abbrev pub times_blocked : List Access → Text → ℕ
times_blocked sites token = length (keep (λ site. blocks site token) sites)

count-count_sites :
    (token : Text) (sites : List Access) (counts : List (Text × ℕ))
    → All IsObject sites
    → count_of token (count_sites sites counts) ≡ times_blocked sites token + count_of token counts
unfolding count_sites
count-count_sites token [] counts h = omega arith
count-count_sites token (site ∷ sites) counts (o, h) = omega (
  arith,
  count-count_sites token sites (count_site site counts) h,
  count-count_site token site counts o,
  keep-cons (λ s. blocks s token) site sites,
)

All-rates :
    (sites : List Access) (cs : List Crawler)
    → All IsObject sites
    → All (λ r. r.blocked ≡ times_blocked sites r.token) (map (rate_of (count_sites sites [])) cs)
All-rates sites [] h = tt
All-rates sites (c ∷ cs) h =
    (omega (arith, count-count_sites c.token sites [] h), All-rates sites cs h)

split_bound :
    (sites : List Access)
    → length (keep (λ site. blocked_in site (tokens_of search)) sites)
        + length (keep is_split sites)
      ≤ length sites
split_bound [] = omega arith
split_bound (site ∷ sites) = omega (
  arith,
  split_bound sites,
  keep-cons (λ s. blocked_in s (tokens_of search)) site sites,
  keep-cons is_split site sites,
  one_kind (blocked_in site (tokens_of search)) (blocked_in site (tokens_of training)),
)
  where
    one_kind : (a b : Bool) → one_if a + one_if (b && not a) ≤ 1
    one_kind a b = ground arith

-- Each row counts the sites that disallow its token, when the tokens of a site are distinct, and
-- the sites that block a search crawler and those that block training only are not more than all.
pub benchmark-counts :
    (locale : Text → Text → Bool) (sites : List Access)
    → All IsObject sites
    → All (λ r. r.blocked ≡ times_blocked sites r.token) (benchmark locale sites).rows
      × ((benchmark locale sites).blocking_search_bots + (benchmark locale sites).split_policy
          ≤ (benchmark locale sites).sample_size)
unfolding benchmark rates
benchmark-counts locale sites h = (
  All-sort_by (more_blocked locale) (λ r. r.blocked ≡ times_blocked sites r.token)
      (map (rate_of (count_sites sites [])) crawlers) (All-rates sites crawlers h),
  split_bound sites,
)
