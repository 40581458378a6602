-- ===== src/Pages/History.antt =====
-- The scans that a browser has seen of a domain, and what changed since the last one:
-- apps/web/components/report/ScanComparison.tsx. The stored text is taken as what it parses to, and
-- dates are left out. A visit ends with what it
-- means to store: the storage is taken to accept it.
pub mod Recent
use geo_readiness.Common.{
  ℕ, ◌-◌, Bool, true, false, Option, none, some, List, [], ◌∷◌, not, ltb, if◌then◌else◌, find?,
  keep, take, map,
}
use geo_readiness.Common.Text.{Text, text_eq}
use geo_readiness.Report.{Score, round, ReportComponent}

pub record StoredComp : Type 0 where
  pub key : Text
  pub score : Score

pub record Entry : Type 0 where
  pub scan_id : Text
  pub at : Text
  pub overall : Score
  pub components : List StoredComp

abbrev pub max_entries : ℕ
max_entries = 12

abbrev pub is_other : Text → Entry → Bool
is_other scan_id e = not (text_eq e.scan_id scan_id)

-- The most recent stored scan that is not this one.
unfoldable pub baseline : Text → List Entry → Option Entry
baseline scan_id history = find? (is_other scan_id) history

-- This scan first, once, and no more than the newest are kept.
unfoldable pub remember : Entry → List Entry → List Entry
remember current history = take max_entries (current ∷ keep (is_other current.scan_id) history)

abbrev pub entry_of : Text → Text → Score → List ReportComponent → Entry
entry_of scan_id at overall components = record {
  scan_id = scan_id;
  at = at;
  overall = overall;
  components = map (λ c. record { key = c.key; score = c.score }) components;
}

-- What a visit shows as the scan to compare with, and what it stores: nothing where the storage
-- cannot be read.
abbrev pub visit : Entry → Option (List Entry) → Option (Option Entry × List Entry)
visit current none = none
visit current (some history) = some (baseline current.scan_id history, remember current history)

pub data Delta : Type 0 where
  no_change : Delta
  up down : ℕ → Delta

-- The chip of `Math.round(now) - Math.round(before)`.
unfoldable pub delta : Score → Score → Delta
delta now before =
    if ltb (round before) (round now)
    then up (round now - round before)
    else if ltb (round now) (round before)
    then down (round before - round now)
    else no_change

-- `prevByKey.get(key) ?? fallback`: of equal keys the last one counts.
abbrev pub score_or : Text → Score → List StoredComp → Score
score_or key fallback [] = fallback
score_or key fallback (c ∷ cs) =
    let found = score_or key c.score cs in
    let other = score_or key fallback cs in if text_eq c.key key then found else other

pub record Change : Type 0 where
  pub name : Text
  pub before : ℕ
  pub after : ℕ
  pub moved : Delta

abbrev pub moves : Delta → Bool
moves no_change = false
moves (up n) = true
moves (down n) = true

abbrev change_of : List StoredComp → ReportComponent → Change
change_of prev c =
    let before = score_or c.key c.score prev in
    record {
      name = c.name;
      before = round before;
      after = round c.score;
      moved = delta c.score before;
    }

-- The components whose score moved.
unfoldable pub changed : List StoredComp → List ReportComponent → List Change
changed prev cs = keep (λ c. moves c.moved) (map (change_of prev) cs)
