-- ===== src/Scans/Insights/Crawlers.antt =====
-- How often sites block AI crawlers: `crawlerBenchmark` of apps/web/lib/scans/insights.ts. The order
-- of `localeCompare` is a parameter.
pub mod Counts
use geo_readiness.Common.{
  ℕ, ◌+◌, Bool, true, false, Option, none, some, List, [], ◌∷◌, ◌&&◌, ◌||◌, not, ltb, ◌==◌,
  if◌then◌else◌, any, keep, length, map, present,
}
use geo_readiness.Common.Text.{Text, text_eq}
use geo_readiness.Common.Sort.{sort_by}
use geo_readiness.Store.{World, select, return, ◌>>=◌}
use geo_readiness.Content.Crawlers.{
  Crawler, CrawlerPurpose, search, training, crawlers, crawlers_by_purpose,
}
use geo_readiness.Scans.Insights.{Reader, Dated, dated_rows, latest_rows, or_none, enough}

-- The verdicts of one site: tokens, each once, and whether they are allowed.
abbrev pub Access : Type 0
Access = List (Text × Bool)

pub record CrawlerBlockRate : Type 0 where
  pub token : Text
  pub company : Text
  pub purpose : CrawlerPurpose
  pub blocked : ℕ

pub record CrawlerBenchmark : Type 0 where
  pub sample_size : ℕ
  pub blocking_search_bots : ℕ
  pub split_policy : ℕ
  pub rows : List CrawlerBlockRate

-- `site[t] === false`
abbrev pub blocks : Access → Text → Bool
blocks [] token = false
blocks ((t, allowed) ∷ site) token = (text_eq t token && not allowed) || blocks site token

unfoldable pub blocked_in : Access → List Text → Bool
blocked_in site tokens = any (blocks site) tokens

abbrev pub tokens_of : CrawlerPurpose → List Text
tokens_of purpose = map (λ c. c.token) (crawlers_by_purpose purpose)

-- The counts by token, `counts`.
abbrev pub count_of : Text → List (Text × ℕ) → ℕ
count_of token [] = 0
count_of token ((t, n) ∷ counts) = if text_eq t token then n else count_of token counts

abbrev pub count_up : Text → List (Text × ℕ) → List (Text × ℕ)
count_up token [] = (token, 1) ∷ []
count_up token ((t, n) ∷ counts) =
    let rest = (t, n) ∷ count_up token counts in
    if text_eq t token then (t, n + 1) ∷ counts else rest

abbrev pub count_site : Access → List (Text × ℕ) → List (Text × ℕ)
count_site [] counts = counts
count_site ((t, allowed) ∷ site) counts =
    let left = count_site site counts in
    let next = count_site site (count_up t counts) in if allowed then left else next

unfoldable pub count_sites : List Access → List (Text × ℕ) → List (Text × ℕ)
count_sites [] counts = counts
count_sites (site ∷ sites) counts = count_sites sites (count_site site counts)

abbrev pub is_split : Access → Bool
is_split site = blocked_in site (tokens_of training) && not (blocked_in site (tokens_of search))

abbrev pub rate_of : List (Text × ℕ) → Crawler → CrawlerBlockRate
rate_of counts c = record {
  token = c.token;
  company = c.company;
  purpose = c.purpose;
  blocked = count_of c.token counts;
}

abbrev pub more_blocked : (Text → Text → Bool) → CrawlerBlockRate → CrawlerBlockRate → Bool
more_blocked locale a b =
    ltb b.blocked a.blocked || ((a.blocked == b.blocked) && locale a.token b.token)

unfoldable pub rates : (Text → Text → Bool) → List Access → List CrawlerBlockRate
rates locale sites = sort_by (more_blocked locale) (map (rate_of (count_sites sites [])) crawlers)

unfoldable pub benchmark : (Text → Text → Bool) → List Access → CrawlerBenchmark
benchmark locale sites = record {
  sample_size = length sites;
  blocking_search_bots = length (keep (λ site. blocked_in site (tokens_of search)) sites);
  split_policy = length (keep is_split sites);
  rows = rates locale sites;
}

abbrev pub has_access : Reader → Dated → Bool
has_access reader r = elim (reader.stored_access r.content) [ none ↦ false | some a ↦ true ]

abbrev pub is_named : Access → Bool
is_named [] = false
is_named (x ∷ xs) = true

-- The verdicts of the latest report of each domain among those that have any.
abbrev pub sites_of : Reader → List Dated → List Access
sites_of reader rows = keep is_named (
    present (
      map (λ r. reader.stored_access r.content)
        (latest_rows reader.collates (keep (has_access reader) rows))))

unfoldable pub crawler_benchmark : (Text → Text → Bool) → Reader → World → Option CrawlerBenchmark
crawler_benchmark locale reader w = or_none (
    (do
      sites ← select (λ now db. sites_of reader (dated_rows db))
      return (enough sites (some (benchmark locale sites))))
      w)
