-- ===== src/Scans/Limiter/Refines.antt =====
-- The limiter, with its pruning and its sweeps, answers as one that keeps every granted call.
use geo_readiness.Common.{
  ℕ, ◌-◌, ◌≤◌, ◌≡◌, refl, sym, ap, ◌∙◌, Bool, true, false, List, [], ◌∷◌, ◌++◌, not, ltb, leb,
  if◌then◌else◌, every, keep, length, keep-append, arith, Bool-cases, inl, inr, append-nil, ap₂,
}
use geo_readiness.Common.Text.{Text, text_eq, text_eq_iff}
use geo_readiness.Scans.Limiter.{
  Hits, times_of, set_times, Limits, is_fresh, sweep, max_keys, allow, Call, serve,
}
use geo_readiness.Scans.Limiter.Window.{
  IsMap, times_of-set_times, set_times-IsMap, keep-IsMap, keep-keep, times_of-sweep,
}

-- The specification: a log of the granted calls, oldest first.
abbrev pub Log : Type 0
Log = List Call

-- When calls for the key were granted.
abbrev pub granted_times : Text → Log → List ℕ
granted_times key [] = []
granted_times key (c ∷ log) =
    if text_eq c.key key then c.at ∷ granted_times key log else granted_times key log

-- A call is granted if fewer than the maximum were granted for its key within the window.
abbrev pub allow_log : Limits → ℕ → Text → Log → Bool
allow_log limits now key log =
    ltb (length (keep (is_fresh limits now) (granted_times key log))) limits.max_per_window

abbrev pub record_call : Bool → Call → Log → Log
record_call granted c log = if granted then log ++ c ∷ [] else log

abbrev pub serve_log : Limits → List Call → Log → List Bool
serve_log limits [] log = []
serve_log limits (c ∷ calls) log =
    let granted = allow_log limits c.at c.key log in
    granted ∷ serve_log limits calls (record_call granted c log)

-- The clock does not go back, from the given time on.
abbrev pub InOrder : ℕ → List Call → Type 0
InOrder t [] = Unit
InOrder t (c ∷ calls) = (t ≤ c.at) × InOrder c.at calls

pub granted_times-append :
    (key : Text) (log : Log) (c : Call)
    → granted_times key (log ++ c ∷ [])
      ≡ granted_times key log ++ (if text_eq c.key key then c.at ∷ [] else [])
granted_times-append key [] c = ground arith
granted_times-append key (d ∷ log) c = ground (arith, granted_times-append key log c)

-- The map and the log agree on what is in the window, now and later.
abbrev pub Agrees : Limits → ℕ → Hits → Log → Type 0
Agrees limits t hits log =
    IsMap hits
    × ((key : Text) (n : ℕ)
        → t ≤ n
        → keep (is_fresh limits n) (times_of key hits)
          ≡ keep (is_fresh limits n) (granted_times key log))

module _ (limits : Limits) where
  refused-Agrees :
      (now : ℕ) (key : Text) (hits : Hits) (log : Log)
      → Agrees limits now hits log
      → Agrees limits now (set_times key (keep (is_fresh limits now) (times_of key hits)) hits) log
  refused-Agrees now key hits log (m, h) = (
    set_times-IsMap key (keep (is_fresh limits now) (times_of key hits)) hits m,
    λ k n le.
        let recent = keep (is_fresh limits now) (times_of key hits) in
        ap (keep (is_fresh limits n)) (times_of-set_times k key recent hits)
        ∙ (elim (Bool-cases (text_eq key k)) [
          | inl same ↦
              let e : key ≡ k = (text_eq_iff key k).0 same in
              rw same (rw (keep-keep limits now n (times_of key hits) le) (rw e (h k n le)))
          | inr other ↦ rw other (h k n le)
        ]),
  )

  -- A granted call: the time joins the window on both sides.
  added-Agrees :
      (now : ℕ) (key : Text) (hits : Hits) (log : Log)
      → Agrees limits now hits log
      → Agrees limits now
          (set_times key (keep (is_fresh limits now) (times_of key hits) ++ now ∷ []) hits)
          (log ++ record { at = now; key = key } ∷ [])
  added-Agrees now key hits log (m, h) = (
    set_times-IsMap key (keep (is_fresh limits now) (times_of key hits) ++ now ∷ []) hits m,
    λ k n le.
        let fresh = is_fresh limits n in
        let recent = keep (is_fresh limits now) (times_of key hits) in
        ap (keep fresh) (times_of-set_times k key (recent ++ now ∷ []) hits)
        ∙ (elim (Bool-cases (text_eq key k)) [
          | inl same ↦
              let e : key ≡ k = (text_eq_iff key k).0 same in
              rw same (
                keep-append fresh recent (now ∷ [])
                ∙ ap (λ xs. xs ++ keep fresh (now ∷ []))
                    (keep-keep limits now n (times_of key hits) le ∙ rw e (h k n le))
                ∙ sym (keep-append fresh (granted_times k log) (now ∷ []))
                ∙ ap (keep fresh) (
                    sym
                      (granted_times-append k log (record { at = now; key = key }) ∙ rw same refl)))
          | inr other ↦ rw other (
              h k n le
              ∙ ap (keep fresh) (
                  sym (
                    granted_times-append k log (record { at = now; key = key })
                    ∙ rw other (append-nil (granted_times k log)))))
        ]),
  )

  swept-Agrees :
      (now : ℕ) (hits : Hits) (log : Log)
      → Agrees limits now hits log
      → Agrees limits now (if ltb max_keys (length hits) then sweep limits now hits else hits) log
  swept-Agrees now hits log (m, h) = elim (Bool-cases (ltb max_keys (length hits))) [
    | inr small ↦ rw small (m, h)
    | inl large ↦
        rw large (sweep-IsMap, λ k n le. times_of-sweep limits now n k hits le m ∙ h k n le)
  ]
    where
      sweep-IsMap : IsMap (sweep limits now hits)
      sweep-IsMap =
          unfold sweep in
          keep-IsMap (λ e. not (every (λ t. leb limits.window_ms (now - t)) e.1)) hits m

  later-Agrees :
      (t now : ℕ) (hits : Hits) (log : Log)
      → t ≤ now
      → Agrees limits t hits log
      → Agrees limits now hits log
  later-Agrees t now hits log le (m, h) = (m, λ k n le'. h k n (omega arith))

  -- One call is answered as the log answers it, and the agreement is kept.
  allow-Agrees :
      (now : ℕ) (key : Text) (hits : Hits) (log : Log)
      → Agrees limits now hits log
      → ((allow limits now key hits).0 ≡ allow_log limits now key log)
        × Agrees limits now
            (allow limits now key hits).1
            (record_call (allow_log limits now key log) (record { at = now; key = key }) log)
  unfolding allow
  allow-Agrees now key hits log a =
      let recent = keep (is_fresh limits now) (times_of key hits) in
      let logged = keep (is_fresh limits now) (granted_times key log) in
      let e : recent ≡ logged = a.1 key now (omega arith) in
      elim (Bool-cases (leb limits.max_per_window (length recent))) [
        | inl full ↦
            let no_room : allow_log limits now key log ≡ false = rw (← e) (ground arith) in
            rw (full, no_room) (refl, refused-Agrees now key hits log a)
        | inr room ↦
            let has_room : allow_log limits now key log ≡ true = rw (← e) (ground arith) in
            rw (room, has_room)
              (
                refl,
                swept-Agrees now (set_times key (recent ++ now ∷ []) hits)
                    (log ++ record { at = now; key = key } ∷ []) (added-Agrees now key hits log a),
              )
      ]

  serve-Agrees :
      (t : ℕ) (calls : List Call) (hits : Hits) (log : Log)
      → InOrder t calls
      → Agrees limits t hits log
      → serve limits calls hits ≡ serve_log limits calls log
  unfolding serve
  serve-Agrees t [] hits log o a = refl
  serve-Agrees t (c ∷ calls) hits log (le, o) a =
      let now = later-Agrees t c.at hits log le a in
      let (same, next) = allow-Agrees c.at c.key hits log now in
      let rest =
        serve-Agrees c.at calls (allow limits c.at c.key hits).1
          (record_call (allow_log limits c.at c.key log) c log) o next in
      ap₂ (λ g gs. g ∷ gs) same rest

-- From an empty map, with a clock that does not go back, the sliding-window limiter answers every
-- sequence of calls as a limiter that keeps all granted calls: a call is granted exactly if fewer
-- than the maximum were granted for its key within the window.
pub serve-eq-serve_log :
    (limits : Limits) (calls : List Call)
    → InOrder 0 calls
    → serve limits calls [] ≡ serve_log limits calls []
unfolding times_of
serve-eq-serve_log limits calls o = serve-Agrees limits 0 calls [] [] o (tt, λ k n le. refl)
