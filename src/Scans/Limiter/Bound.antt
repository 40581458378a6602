-- ===== src/Scans/Limiter/Bound.antt =====
-- No key is granted more than the maximum within a window.
use geo_readiness.Common.{
  ℕ, ◌+◌, ◌≤◌, ◌<◌, ◌≡◌, Bool, true, List, [], ◌∷◌, ◌++◌, if◌then◌else◌, keep, length, All,
  keep-append, length-append, append_assoc, append-nil, arith, Bool-cases, inl, inr,
}
use geo_readiness.Common.Text.{Text, text_eq, text_eq_iff}
use geo_readiness.Scans.Limiter.{Limits, is_fresh, Call, serve}
use geo_readiness.Scans.Limiter.Refines.{
  Log, granted_times, granted_times-append, allow_log, record_call, serve_log, InOrder,
  serve-eq-serve_log,
}

-- The calls that were answered with yes.
abbrev pub granted_calls : List Call → List Bool → Log
granted_calls [] answers = []
granted_calls (c ∷ calls) [] = []
granted_calls (c ∷ calls) (granted ∷ answers) =
    if granted then c ∷ granted_calls calls answers else granted_calls calls answers

-- How many calls were granted for the key within the window before the time.
abbrev pub in_window : Limits → ℕ → Text → Log → ℕ
in_window limits n key log = length (keep (is_fresh limits n) (granted_times key log))

abbrev IsBounded : Limits → ℕ → Log → Type 0
IsBounded limits t log =
    (key : Text) (n : ℕ) → t ≤ n → in_window limits n key log ≤ limits.max_per_window

module _ (limits : Limits) where
  -- What is in the window later was in it before.
  in_window_shrinks :
      (t n : ℕ) (xs : List ℕ)
      → t ≤ n
      → length (keep (is_fresh limits n) xs) ≤ length (keep (is_fresh limits t) xs)
  in_window_shrinks t n [] h = omega arith
  in_window_shrinks t n (x ∷ xs) h = ground (arith, in_window_shrinks t n xs h)

  in_window-append :
      (n : ℕ) (key : Text) (log : Log) (c : Call)
      → in_window limits n key (log ++ c ∷ [])
        ≤ in_window limits n key log + (if text_eq c.key key then 1 else 0)
  in_window-append n key log c = rw (granted_times-append key log c) (
      rw
        (keep-append (is_fresh limits n) (granted_times key log)
          (if text_eq c.key key then c.at ∷ [] else []))
        (rw
          (length-append (keep (is_fresh limits n) (granted_times key log))
            (keep (is_fresh limits n) (if text_eq c.key key then c.at ∷ [] else [])))
          (ground arith)))

  record_call-IsBounded :
      (c : Call) (log : Log)
      → IsBounded limits c.at log
      → IsBounded limits c.at (record_call (allow_log limits c.at c.key log) c log)
  record_call-IsBounded c log b key n le = elim (Bool-cases (allow_log limits c.at c.key log)) [
    | inr refused ↦ rw refused (b key n le)
    | inl granted ↦ rw granted (elim (Bool-cases (text_eq c.key key)) [
      | inr other ↦ let step = in_window-append n key log c in let old = b key n le in ground arith
      | inl same ↦
          let e : c.key ≡ key = (text_eq_iff c.key key).0 same in
          let step = in_window-append n key log c in
          let old = in_window_shrinks c.at n (granted_times key log) le in
          let room : in_window limits c.at key log < limits.max_per_window =
            rw e at (has_room c log granted) in
          ground arith
    ])
  ]
    where
      has_room :
          (c : Call) (log : Log)
          → allow_log limits c.at c.key log ≡ true
          → in_window limits c.at c.key log < limits.max_per_window
      has_room c log h = ground arith

  -- The log after the calls, from the log before them.
  serve_log-IsBounded :
      (t n : ℕ) (calls : List Call) (log : Log)
      → InOrder t calls
      → All (λ c. c.at ≤ n) calls
      → t ≤ n
      → IsBounded limits t log
      → IsBounded limits n (log ++ granted_calls calls (serve_log limits calls log))
  serve_log-IsBounded t n [] log o before le b key m le' =
      rw (append-nil log) (b key m (omega arith))
  serve_log-IsBounded t n (c ∷ calls) log (after, o) (until, before) le b key m le' =
      let granted = allow_log limits c.at c.key log in
      let now = λ (k : Text) (i : ℕ) (h : c.at ≤ i). b k i (omega arith) in
      let rest =
        serve_log-IsBounded c.at n calls (record_call granted c log) o before until
          (record_call-IsBounded c log now) key m le' in
      elim (Bool-cases granted) [
        | inr no_room ↦ rw no_room (rw no_room at rest)
        | inl room ↦ rw room (
            rw
              (append_assoc log (c ∷ [])
                (granted_calls calls (serve_log limits calls (log ++ c ∷ []))))
              at (rw room at rest))
      ]

-- Whatever the sequence of calls, with a clock that does not go back: at no later time are more
-- than the maximum of granted calls for one key within the window.
pub serve-le-max :
    (limits : Limits) (calls : List Call) (key : Text) (n : ℕ)
    → InOrder 0 calls
    → All (λ c. c.at ≤ n) calls
    → in_window limits n key (granted_calls calls (serve limits calls [])) ≤ limits.max_per_window
serve-le-max limits calls key n o before = rw (serve-eq-serve_log limits calls o) (
    serve_log-IsBounded limits 0 n calls [] o before (omega arith) (λ k m le. omega arith) key n
      (omega arith))
