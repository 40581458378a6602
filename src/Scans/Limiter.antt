-- ===== src/Scans/Limiter.antt =====
-- The sliding-window limiters: `slidingLimiter` of apps/web/lib/scans/abuse.ts. The `Map` is a list
-- of keys with their times, in insertion order; times are milliseconds. `now - t` stops at 0 here
-- where the clock went back, and both tests on it come out as in the source, since a window is
-- longer than 0.
pub mod Window
pub mod Refines
pub mod Bound
use geo_readiness.Common.{
  ℕ, ◌+◌, ◌-◌, ◌*◌, Bool, true, false, List, [], ◌∷◌, ◌++◌, not, ltb, leb, if◌then◌else◌, every,
  keep, length,
}
use geo_readiness.Common.Text.{Text, text_eq}

abbrev pub Hits : Type 0
Hits = List (Text × List ℕ)

-- `hits.get(key) ?? []`
unfoldable pub times_of : Text → Hits → List ℕ
times_of key [] = []
times_of key ((k, times) ∷ hits) = if text_eq k key then times else times_of key hits

-- `hits.set(key, times)`
unfoldable pub set_times : Text → List ℕ → Hits → Hits
set_times key times [] = (key, times) ∷ []
set_times key times ((k, old) ∷ hits) =
    if text_eq k key then (k, times) ∷ hits else (k, old) ∷ set_times key times hits

pub record Limits : Type 0 where
  pub max_per_window : ℕ
  pub window_ms : ℕ

module _ (limits : Limits) (now : ℕ) where
  abbrev pub is_fresh : ℕ → Bool
  is_fresh t = ltb (now - t) limits.window_ms

  -- Drops the keys none of whose times is in the window.
  unfoldable pub sweep : Hits → Hits
  sweep hits = keep (λ e. not (every (λ t. leb limits.window_ms (now - t)) e.1)) hits

abbrev pub max_keys : ℕ
max_keys = 5000

-- One call of the returned `allow`: the answer and the new map.
unfoldable pub allow : Limits → ℕ → Text → Hits → Bool × Hits
allow limits now key hits =
    let recent = keep (is_fresh limits now) (times_of key hits) in
    if leb limits.max_per_window (length recent)
    then (false, set_times key recent hits)
    else (let added = set_times key (recent ++ now ∷ []) hits in
        (true, if ltb max_keys (length added) then sweep limits now added else added))

-- `checkScanRateLimit`, `checkCrawlerCheckRateLimit` and `checkPromoRateLimit`.
abbrev pub scan_limits : Limits
scan_limits = record { max_per_window = 8; window_ms = 10 * 60 * 1000 }

abbrev pub crawler_check_limits : Limits
crawler_check_limits = record { max_per_window = 20; window_ms = 10 * 60 * 1000 }

abbrev pub promo_limits : Limits
promo_limits = record { max_per_window = 10; window_ms = 10 * 60 * 1000 }

-- A call: when, and for which key.
pub record Call : Type 0 where
  pub at : ℕ
  pub key : Text

-- The answers to a sequence of calls.
unfoldable pub serve : Limits → List Call → Hits → List Bool
unfolding allow
serve limits [] hits = []
serve limits (c ∷ calls) hits =
    let (granted, next) = allow limits c.at c.key hits in granted ∷ serve limits calls next
