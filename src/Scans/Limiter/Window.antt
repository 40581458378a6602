-- ===== src/Scans/Limiter/Window.antt =====
-- The map of the limiter: writes, sweeps, and what stays in the window.
use geo_readiness.Common.{
  ℕ, ◌-◌, ◌≤◌, ◌≡◌, refl, sym, ap, ◌∙◌, Bool, true, false, List, [], ◌∷◌, leb, if◌then◌else◌, every,
  keep, arith, Bool-cases, inl, inr,
}
use geo_readiness.Common.Text.{Text, text_eq, text_eq_iff}
use geo_readiness.Scans.Limiter.{Hits, times_of, set_times, Limits, is_fresh, sweep}

-- No key stands twice in the map.
abbrev pub has_key : Text → Hits → Bool
has_key key [] = false
has_key key ((k, times) ∷ hits) = if text_eq k key then true else has_key key hits

abbrev pub IsMap : Hits → Type 0
IsMap [] = Unit
IsMap ((k, times) ∷ hits) = (has_key k hits ≡ false) × IsMap hits

pub times_of-set_times :
    (j k : Text) (times : List ℕ) (hits : Hits)
    → times_of j (set_times k times hits) ≡ (if text_eq k j then times else times_of j hits)
unfolding times_of set_times
times_of-set_times j k times [] = refl
times_of-set_times j k times ((i, old) ∷ hits) =
    ground
      (arith, text_eq_iff k j, text_eq_iff i k, text_eq_iff i j, times_of-set_times j k times hits)

has_key-set_times :
    (j k : Text) (times : List ℕ) (hits : Hits)
    → has_key j (set_times k times hits) ≡ (if text_eq k j then true else has_key j hits)
unfolding set_times
has_key-set_times j k times [] = refl
has_key-set_times j k times ((i, old) ∷ hits) =
    ground
      (arith, text_eq_iff k j, text_eq_iff i k, text_eq_iff i j, has_key-set_times j k times hits)

pub set_times-IsMap :
    (k : Text) (times : List ℕ) (hits : Hits) → IsMap hits → IsMap (set_times k times hits)
unfolding set_times
set_times-IsMap k times [] h = (refl, tt)
set_times-IsMap k times ((i, old) ∷ hits) (p, h) = elim (Bool-cases (text_eq i k)) [
  | inl same ↦ rw same (p, h)
  | inr other ↦ rw other (
    ground (arith, has_key-set_times i k times hits, text_eq_iff k i, text_eq_iff i k),
    set_times-IsMap k times hits h,
  )
]

times_of-missing : (j : Text) (hits : Hits) → has_key j hits ≡ false → times_of j hits ≡ []
unfolding times_of
times_of-missing j [] h = refl
times_of-missing j ((i, old) ∷ hits) h = ground (arith, times_of-missing j hits)

has_key-keep :
    (p : Text × List ℕ → Bool) (j : Text) (hits : Hits)
    → has_key j hits ≡ false
    → has_key j (keep p hits) ≡ false
has_key-keep p j [] h = refl
has_key-keep p j (e ∷ hits) h = ground (arith, has_key-keep p j hits)

pub keep-IsMap : (p : Text × List ℕ → Bool) (hits : Hits) → IsMap hits → IsMap (keep p hits)
keep-IsMap p [] h = tt
keep-IsMap p (e ∷ hits) (q, h) = ground (arith, keep-IsMap p hits h, has_key-keep p e.0 hits)

module _ (limits : Limits) where
  -- What is fresh later is fresh now.
  pub keep-keep :
      (now n : ℕ) (xs : List ℕ)
      → now ≤ n
      → keep (is_fresh limits n) (keep (is_fresh limits now) xs) ≡ keep (is_fresh limits n) xs
  keep-keep now n [] h = refl
  keep-keep now n (x ∷ xs) h = ground (arith, keep-keep now n xs h)

  -- What is stale now is not fresh later.
  keep-stale :
      (now n : ℕ) (xs : List ℕ)
      → now ≤ n
      → every (λ t. leb limits.window_ms (now - t)) xs ≡ true
      → keep (is_fresh limits n) xs ≡ []
  keep-stale now n [] h s = refl
  keep-stale now n (x ∷ xs) h s = ground (arith, keep-stale now n xs h)

  pub times_of-sweep :
      (now n : ℕ) (j : Text) (hits : Hits)
      → now ≤ n
      → IsMap hits
      → keep (is_fresh limits n) (times_of j (sweep limits now hits))
        ≡ keep (is_fresh limits n) (times_of j hits)
  unfolding sweep times_of
  times_of-sweep now n j [] h m = refl
  times_of-sweep now n j ((i, times) ∷ hits) h (p, m) =
      let stale = every (λ t. leb limits.window_ms (now - t)) times in
      elim (Bool-cases stale) [
        | inr some_fresh ↦ rw some_fresh (elim (Bool-cases (text_eq i j)) [
          | inl same ↦ rw same
          | inr other ↦ rw other (times_of-sweep now n j hits h m)
        ])
        | inl all_stale ↦ rw all_stale (elim (Bool-cases (text_eq i j)) [
          | inl same ↦
              let e : i ≡ j = (text_eq_iff i j).0 same in
              let gone : has_key j hits ≡ false = rw e at p in
              rw same (
                times_of-sweep now n j hits h m
                ∙ ap (keep (is_fresh limits n)) (times_of-missing j hits gone)
                ∙ sym (keep-stale now n times h all_stale))
          | inr other ↦ rw other (times_of-sweep now n j hits h m)
        ])
      ]
