-- ===== src/Pages/History/Recent.antt =====
-- Which scans a browser remembers: apps/web/components/report/ScanComparison.tsx.
use geo_readiness.Common.{
  ℕ, zero, suc, Bool, true, false, ◌≡◌, refl, ap, sym, ◌∙◌, some, List, [], ◌∷◌, find?, keep, take,
  every, arith, Bool-cases, inl, inr,
}
use geo_readiness.Common.Text.{Text, text_eq, text_eq_refl, text_eq_iff}
use geo_readiness.Pages.History.{Entry, is_other, baseline, remember, max_entries}

-- The entries, each scan once.
abbrev pub Distinct : List Entry → Type 0
Distinct [] = Unit
Distinct (e ∷ es) = (every (is_other e.scan_id) es ≡ true) × Distinct es

-- The visits from the first on, over what was stored.
abbrev pub remember_all : List Entry → List Entry → List Entry
remember_all [] history = history
remember_all (v ∷ visits) history = remember_all visits (remember v history)

-- All scans ever seen, each once, the last visited first.
unfoldable pub seen_after : List Entry → List Entry → List Entry
seen_after [] seen = seen
seen_after (v ∷ visits) seen = seen_after visits (v ∷ keep (is_other v.scan_id) seen)

every-keep : (p q : Entry → Bool) (es : List Entry) → every p es ≡ true → every p (keep q es) ≡ true
every-keep p q [] h = refl
every-keep p q (e ∷ es) h = ground (arith, every-keep p q es)

every-kept : (p : Entry → Bool) (es : List Entry) → every p (keep p es) ≡ true
every-kept p [] = refl
every-kept p (e ∷ es) = ground (arith, every-kept p es)

keep-Distinct : (p : Entry → Bool) (es : List Entry) → Distinct es → Distinct (keep p es)
keep-Distinct p [] d = tt
keep-Distinct p (e ∷ es) (h, d) = elim (Bool-cases (p e)) [
  | inl q ↦ rw q (every-keep (is_other e.scan_id) p es h, keep-Distinct p es d)
  | inr q ↦ rw q (keep-Distinct p es d)
]

keep_all : (p : Entry → Bool) (es : List Entry) → every p es ≡ true → keep p es ≡ es
keep_all p [] h = refl
keep_all p (e ∷ es) h = ground (arith, keep_all p es)

every-take :
    (p : Entry → Bool) (n : ℕ) (es : List Entry) → every p es ≡ true → every p (take n es) ≡ true
every-take p zero es h = refl
every-take p (suc n) [] h = refl
every-take p (suc n) (e ∷ es) h = ground (arith, every-take p n es)

take-take : (n : ℕ) (es : List Entry) → take n (take n es) ≡ take n es
take-take zero es = refl
take-take (suc n) [] = refl
take-take (suc n) (e ∷ es) = ap (λ ys. e ∷ ys) (take-take n es)

same_other : (a b : Text) (e : Entry) → text_eq b a ≡ true → is_other a e ≡ is_other b e
same_other a b e h = ap (λ t. is_other t e) (sym ((text_eq_iff b a).0 h))

every-same :
    (a b : Text) (es : List Entry)
    → text_eq b a ≡ true
    → every (is_other b) es ≡ true
    → every (is_other a) es ≡ true
every-same a b es h q = ap (λ t. every (is_other t) es) (sym ((text_eq_iff b a).0 h)) ∙ q

-- To leave a scan out of a list that has each once, one more entry than is kept is enough.
take-keep-take :
    (n : ℕ) (id : Text) (es : List Entry)
    → Distinct es
    → take n (keep (is_other id) (take (suc n) es)) ≡ take n (keep (is_other id) es)
take-keep-take n id [] d = refl
take-keep-take zero id (e ∷ es) d = refl
take-keep-take (suc n) id (e ∷ es) (h, d) = elim (Bool-cases (text_eq e.scan_id id)) [
  | inl q ↦ rw q (
      let other = every-same id e.scan_id es q h in
      ap (take (suc n))
        (keep_all (is_other id) (take (suc n) es) (every-take (is_other id) (suc n) es other))
      ∙ take-take (suc n) es
      ∙ ap (take (suc n)) (sym (keep_all (is_other id) es other)))
  | inr q ↦ rw q (ap (λ ys. e ∷ ys) (take-keep-take n id es d))
]

abbrev pub put_first : Entry → List Entry → List Entry
put_first v es = v ∷ keep (is_other v.scan_id) es

put_first-Distinct : (v : Entry) (es : List Entry) → Distinct es → Distinct (put_first v es)
put_first-Distinct v es d =
    (every-kept (is_other v.scan_id) es, keep-Distinct (is_other v.scan_id) es d)

remember-take :
    (v : Entry) (es : List Entry)
    → Distinct es
    → remember v (take max_entries es) ≡ take max_entries (put_first v es)
unfolding remember
remember-take v es d = ap (λ ys. v ∷ ys) (take-keep-take 11 v.scan_id es d)

remember_all-take :
    (visits es : List Entry)
    → Distinct es
    → remember_all visits (take max_entries es) ≡ take max_entries (seen_after visits es)
unfolding seen_after
remember_all-take [] es d = refl
remember_all-take (v ∷ visits) es d =
    ap (remember_all visits) (remember-take v es d)
    ∙ remember_all-take visits (put_first v es) (put_first-Distinct v es d)

-- After any visits, the first of them on an empty storage, the browser remembers the last twelve
-- of all the scans it has seen, each once, the last visited first.
pub remember_all-seen_after :
    (visits : List Entry) → remember_all visits [] ≡ take max_entries (seen_after visits [])
remember_all-seen_after visits = remember_all-take visits [] tt

find-keep : (p : Entry → Bool) (es : List Entry) → find? p (keep p es) ≡ find? p es
find-keep p [] = refl
find-keep p (e ∷ es) = ground (arith, find-keep p es)

find-take :
    (p : Entry → Bool) (n : ℕ) (es : List Entry)
    → every p es ≡ true
    → find? p (take (suc n) es) ≡ find? p es
find-take p n [] h = refl
find-take p n (e ∷ es) h = ground arith

-- A page that is loaded again compares with the same scan as before, and the next scan compares with
-- this one.
pub baseline-remember :
    (current : Entry) (other : Text) (history : List Entry)
    → text_eq current.scan_id other ≡ false
    → (baseline current.scan_id (remember current history) ≡ baseline current.scan_id history)
      × (baseline other (remember current history) ≡ some current)
unfolding baseline remember
baseline-remember current other history h = (
  rw (text_eq_refl current.scan_id) (
      find-take (is_other current.scan_id) 10 (keep (is_other current.scan_id) history)
        (every-kept (is_other current.scan_id) history)
      ∙ find-keep (is_other current.scan_id) history),
  rw h refl,
)
