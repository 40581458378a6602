-- ===== src/Pages/Pending/Stalls.antt =====
-- When apps/web/components/scan/ScanPending.tsx says that it takes too long.
use geo_readiness.Common.{
  ℕ, suc, ◌+◌, ◌≤◌, ◌<◌, Bool, true, false, ◌≡◌, refl, ap, ◌∙◌, List, [], ◌∷◌, ◌++◌, length, every,
  ◌⊎◌, inl, inr, arith, Bool-cases,
}
use geo_readiness.Common.Text.{Text, codes, text_eq}
use geo_readiness.Pages.Pending.{
  Waiting, Poll, answered, unanswered, Event, polled, advance, second, on_event, on_events, on_poll,
  is_final, view, stalled, fresh, max_poll_fails, stall_seconds, last_step, unless_final, next_step,
  tick,
}

-- The polls among the events, in order.
abbrev pub polls : List Event → List Poll
polls [] = []
polls (polled p ∷ es) = p ∷ polls es
polls (advance ∷ es) = polls es
polls (second ∷ es) = polls es

-- The seconds among the events.
abbrev pub seconds : List Event → ℕ
seconds [] = 0
seconds (polled p ∷ es) = seconds es
seconds (advance ∷ es) = seconds es
seconds (second ∷ es) = suc (seconds es)

abbrev pub is_unanswered : Poll → Bool
is_unanswered unanswered = true
is_unanswered (answered status) = false

-- The events end in a run of at least `n` polls without an answer.
pub record EndsUnanswered (n : ℕ) (ps : List Poll) : Type 0 where
  pub before : List Poll
  pub last : List Poll
  pub is_split : ps ≡ before ++ last
  pub all_unanswered : every is_unanswered last ≡ true
  pub enough : n ≤ length last

one_more : (n : ℕ) (p : Poll) (ps : List Poll) → EndsUnanswered n ps → EndsUnanswered n (p ∷ ps)
one_more n p ps r = record {
  before = p ∷ r.before;
  last = r.last;
  is_split = ap (λ qs. p ∷ qs) r.is_split;
  all_unanswered = r.all_unanswered;
  enough = r.enough;
}

-- Where a count of fails comes from: all of the polls and the count before them, or the last polls.
abbrev Counted : ℕ → ℕ → List Poll → Type 0
Counted n m ps = ((every is_unanswered ps ≡ true) × (m ≤ n + length ps)) ⊎ EndsUnanswered m ps

answer-EndsUnanswered :
    (m : ℕ) (status : Text) (ps : List Poll)
    → Counted 0 m ps
    → EndsUnanswered m (answered status ∷ ps)
answer-EndsUnanswered m status ps (inl h) = record {
  before = answered status ∷ [];
  last = ps;
  is_split = refl;
  all_unanswered = h.0;
  enough = omega (arith, h.1);
}
answer-EndsUnanswered m status ps (inr h) = one_more m (answered status) ps h

miss-Counted : (n m : ℕ) (ps : List Poll) → Counted (n + 1) m ps → Counted n m (unanswered ∷ ps)
miss-Counted n m ps (inl h) = inl (h.0, omega (arith, h.1))
miss-Counted n m ps (inr h) = inr (one_more m unanswered ps h)

fails_Counted : (s : Waiting) (es : List Event) → Counted s.fails (on_events es s).fails (polls es)
unfolding on_events on_event
fails_Counted s [] = inl (refl, omega arith)
fails_Counted s (polled (answered status) ∷ es) =
    inr (answer-EndsUnanswered _ status (polls es) (fails_Counted (on_poll (answered status) s) es))
fails_Counted s (polled unanswered ∷ es) =
    miss-Counted s.fails _ (polls es) (fails_Counted (on_poll unanswered s) es)
fails_Counted s (advance ∷ es) = elim (Bool-cases (is_final s.current)) [
  | inl e ↦ rw (on_events, e) (fails_Counted s es)
  | inr e ↦ rw (on_events, e) (fails_Counted (next_step s) es)
]
fails_Counted s (second ∷ es) = elim (Bool-cases (is_final s.current)) [
  | inl e ↦ rw (on_events, e) (fails_Counted s es)
  | inr e ↦ rw (on_events, e) (fails_Counted (tick s) es)
]

ticked : (s : Waiting) → (unless_final tick s).elapsed ≤ s.elapsed + 1
ticked s = elim (Bool-cases (is_final s.current)) [
  | inl e ↦ rw e (omega arith)
  | inr e ↦ rw e (omega arith)
]

kept_elapsed : (s : Waiting) → (unless_final next_step s).elapsed ≡ s.elapsed
kept_elapsed s = elim (Bool-cases (is_final s.current)) [ inl e ↦ rw e refl | inr e ↦ rw e refl ]

elapsed-le : (s : Waiting) (es : List Event) → (on_events es s).elapsed ≤ s.elapsed + seconds es
unfolding on_events on_event
elapsed-le s [] = omega arith
elapsed-le s (polled (answered status) ∷ es) = elapsed-le (on_poll (answered status) s) es
elapsed-le s (polled unanswered ∷ es) = elapsed-le (on_poll unanswered s) es
elapsed-le s (advance ∷ es) =
    omega (arith, elapsed-le (unless_final next_step s) es, kept_elapsed s)
elapsed-le s (second ∷ es) = omega (arith, elapsed-le (unless_final tick s) es, ticked s)

-- Nothing is answered: the status stays, and each event counts.
record Silent (s t : Waiting) (es : List Event) : Type 0 where
  same_status : t.current ≡ s.current
  all_fails : t.fails ≡ s.fails + length (polls es)
  all_seconds : t.elapsed ≡ s.elapsed + seconds es

on_events-Silent :
    (s : Waiting) (es : List Event)
    → is_final s.current ≡ false
    → every is_unanswered (polls es) ≡ true
    → Silent s (on_events es s) es
unfolding on_events on_event
on_events-Silent s [] f h = record {
  same_status = refl;
  all_fails = omega arith;
  all_seconds = omega arith;
}
on_events-Silent s (polled (answered status) ∷ es) f h = cc
on_events-Silent s (polled unanswered ∷ es) f h =
    let r = on_events-Silent (on_poll unanswered s) es f h in
    record {
      same_status = r.same_status;
      all_fails = omega (arith, r.all_fails);
      all_seconds = r.all_seconds;
    }
on_events-Silent s (advance ∷ es) f h = rw f (
    let r = on_events-Silent (next_step s) es f h in
    record { same_status = r.same_status; all_fails = r.all_fails; all_seconds = r.all_seconds })
on_events-Silent s (second ∷ es) f h = rw f (
    let r = on_events-Silent (tick s) es f h in
    record {
      same_status = r.same_status;
      all_fails = r.all_fails;
      all_seconds = omega (arith, r.all_seconds);
    })

not_failed : (status : Text) → is_final status ≡ false → text_eq status (codes "failed") ≡ false
unfolding is_final
not_failed status h = ground arith

stalled_view :
    (t : Waiting)
    → is_final t.current ≡ false
    → (max_poll_fails ≤ t.fails) ⊎ (stall_seconds < t.elapsed)
    → view t ≡ stalled
unfolding view
stalled_view t f h = rw (not_failed t.current f) (rw f (ground arith))

-- From any state whose status is not final, five polls in a row without an answer, or more than
-- 300 seconds, with no answer in between, make the page say that the scan takes too long.
pub view-stalled :
    (s : Waiting) (es : List Event)
    → is_final s.current ≡ false
    → every is_unanswered (polls es) ≡ true
    → (max_poll_fails ≤ length (polls es)) ⊎ (stall_seconds < seconds es)
    → view (on_events es s) ≡ stalled
view-stalled s es f h enough =
    let r = on_events-Silent s es f h in
    stalled_view (on_events es s) (ap is_final r.same_status ∙ f) (elim enough [
      | inl n ↦ inl (omega (arith, r.all_fails))
      | inr n ↦ inr (omega (arith, r.all_seconds))
    ])

stalled_parts :
    (t : Waiting) → view t ≡ stalled → (max_poll_fails ≤ t.fails) ⊎ (stall_seconds < t.elapsed)
unfolding view
stalled_parts t h = ground arith

enough-EndsUnanswered :
    (m : ℕ) (ps : List Poll)
    → max_poll_fails ≤ m
    → Counted 0 m ps
    → EndsUnanswered max_poll_fails ps
enough-EndsUnanswered m ps h (inl c) = record {
  before = [];
  last = ps;
  is_split = refl;
  all_unanswered = c.0;
  enough = omega (arith, c.1);
}
enough-EndsUnanswered m ps h (inr r) = record {
  before = r.before;
  last = r.last;
  is_split = r.is_split;
  all_unanswered = r.all_unanswered;
  enough = omega (arith, r.enough);
}

-- The page says that a scan takes too long only if the last five polls at least were not answered,
-- or more than 300 seconds went by.
pub stalled-view :
    (status : Text) (es : List Event)
    → view (on_events es (fresh status)) ≡ stalled
    → EndsUnanswered max_poll_fails (polls es) ⊎ (stall_seconds < seconds es)
stalled-view status es h = elim (stalled_parts (on_events es (fresh status)) h) [
  | inl n ↦ inl (enough-EndsUnanswered _ (polls es) n (fails_Counted (fresh status) es))
  | inr n ↦ inr (omega (arith, elapsed-le (fresh status) es))
]

bounded_step : (s : Waiting) → s.step ≤ last_step → (unless_final next_step s).step ≤ last_step
bounded_step s h = ground arith

-- The step that is shown is never the last one.
pub step-le-last_step :
    (s : Waiting) (es : List Event) → s.step ≤ last_step → (on_events es s).step ≤ last_step
unfolding on_events on_event
step-le-last_step s [] h = h
step-le-last_step s (polled (answered status) ∷ es) h =
    step-le-last_step (on_poll (answered status) s) es h
step-le-last_step s (polled unanswered ∷ es) h = step-le-last_step (on_poll unanswered s) es h
step-le-last_step s (advance ∷ es) h =
    step-le-last_step (unless_final next_step s) es (bounded_step s h)
step-le-last_step s (second ∷ es) h = step-le-last_step (unless_final tick s) es (ground arith)
