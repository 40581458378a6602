-- ===== src/Pages/Pending.antt =====
-- The page of a scan that is not done: the state and the timers of
-- apps/web/components/scan/ScanPending.tsx. An answer may come in late, behind the answer of a later
-- poll; the timers stop at a final status. That a page is left is not an event.
pub mod Stalls
use geo_readiness.Common.{
  ℕ, zero, suc, ◌+◌, ◌-◌, ◌≤◌, ◌<◌, Bool, true, false, ◌≡◌, refl, List, [], ◌∷◌, ◌++◌, ◌||◌, ◌&&◌,
  not, leb, ltb, if◌then◌else◌, length, every, ◌⊎◌, inl, inr, arith, Bool-cases, map,
}
use geo_readiness.Common.Text.{Text, codes, text_eq, has_text}

abbrev pub steps : List Text
steps = map codes (
    "Checking domain" ∷ "Crawling key pages" ∷ "Building business profile"
    ∷ "Generating search-intent clusters" ∷ "Checking coverage" ∷ "Computing readiness"
    ∷ "Preparing results" ∷ [])

-- The last step is not reached before the scan is done.
abbrev pub last_step : ℕ
last_step = length steps - 2

abbrev pub final_statuses : List Text
final_statuses = map codes ("completed" ∷ "partial" ∷ "failed" ∷ [])

abbrev pub max_poll_fails : ℕ
max_poll_fails = 5

abbrev pub stall_seconds : ℕ
stall_seconds = 300

unfoldable pub is_final : Text → Bool
is_final status = has_text status final_statuses

pub record Waiting : Type 0 where
  pub current : Text
  pub step : ℕ
  pub elapsed : ℕ
  pub fails : ℕ

abbrev pub fresh : Text → Waiting
fresh status = record { current = status; step = 0; elapsed = 0; fails = 0 }

-- A poll is answered with a status, or it is not: a status that is not ok, a broken body, no
-- connection.
pub data Poll : Type 0 where
  answered : Text → Poll
  unanswered : Poll

pub data Event : Type 0 where
  polled : Poll → Event
  advance second : Event

abbrev pub min : ℕ → ℕ → ℕ
min a b = if leb a b then a else b

abbrev pub on_poll : Poll → Waiting → Waiting
on_poll (answered status) s = record s { fails = 0; current = status }
on_poll unanswered s = record s { fails = s.fails + 1 }

abbrev pub unless_final : (Waiting → Waiting) → Waiting → Waiting
unless_final f s = if is_final s.current then s else f s

abbrev pub next_step : Waiting → Waiting
next_step s = record s { step = min (s.step + 1) last_step }

abbrev pub tick : Waiting → Waiting
tick s = record s { elapsed = s.elapsed + 1 }

unfoldable pub on_event : Event → Waiting → Waiting
on_event (polled p) s = on_poll p s
on_event advance s = unless_final next_step s
on_event second s = unless_final tick s

unfoldable pub on_events : List Event → Waiting → Waiting
on_events [] s = s
on_events (e ∷ es) s = on_events es (on_event e s)

pub data View : Type 0 where
  failed stalled scanning : View

abbrev pub is_stalled : Waiting → Bool
is_stalled s =
    not (is_final s.current) && (leb max_poll_fails s.fails || ltb stall_seconds s.elapsed)

-- What the page says.
unfoldable pub view : Waiting → View
view s =
    if text_eq s.current (codes "failed")
    then failed
    else if is_stalled s
    then stalled
    else scanning
