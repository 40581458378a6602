-- ===== src/Scans/Insights/Latest.antt =====
-- Which report of a domain counts: the query of apps/web/lib/scans/insights.ts and distribution.ts.
use geo_readiness.Common.{
  ◌≤◌, ◌≡◌, refl, ap, sym, ◌∙◌, Bool, true, false, none, some, List, [], ◌∷◌, map, All, ltb, arith,
  if◌then◌else◌, Bool-cases, Option-cases, inl, inr, present,
}
use mathlib.Core.Path.{subst}
use geo_readiness.Common.Text.{Text, text_eq, text_eq_iff}
use geo_readiness.Common.Words.{nub}
use geo_readiness.Common.Sort.{sort_by}
use geo_readiness.Scans.Repository.{last_by, later_of}
use geo_readiness.Scans.Insights.{Dated, of_domain, latest_of, latest_rows}

abbrev NotNewer : Dated → List Dated → Type 0
NotNewer x rows = All (λ r. r.created_at ≤ x.created_at) rows

weaker_bound :
    (x y : Dated) (rows : List Dated)
    → x.created_at ≤ y.created_at
    → NotNewer x rows
    → NotNewer y rows
weaker_bound x y [] h n = tt
weaker_bound x y (r ∷ rows) h (n, ns) = (omega (arith, h, n), weaker_bound x y rows h ns)

some_eq : {x y : Dated} → some x ≡ some y → x ≡ y
some_eq h = cc h

none_empty : (rows : List Dated) → last_by (λ r. r.created_at) rows ≡ none → rows ≡ []
none_empty [] h = refl
none_empty (r ∷ rows) h = cc

later_bound :
    (r y : Dated) (rows : List Dated)
    → NotNewer y rows
    → (b : Bool) → ltb r.created_at y.created_at ≡ b
    → NotNewer (if b then y else r) (r ∷ rows)
later_bound r y rows n true e = (ground arith, n)
later_bound r y rows n false e = (omega arith, weaker_bound y r rows (ground arith) n)

later :
    (r y x : Dated) (rows : List Dated)
    → NotNewer y rows
    → later_of (λ d. d.created_at) r (some y) ≡ x
    → NotNewer x (r ∷ rows)
later r y x rows n h =
    subst (λ z. NotNewer z (r ∷ rows)) h
      (later_bound r y rows n (ltb r.created_at y.created_at) refl)

last_by-NotNewer :
    (rows : List Dated) (x : Dated) → last_by (λ r. r.created_at) rows ≡ some x → NotNewer x rows
last_by-NotNewer [] x h = tt
last_by-NotNewer (r ∷ rows) x h = elim (Option-cases (last_by (λ d. d.created_at) rows)) [
  | inl e ↦
      alone (none_empty rows e)
        (some_eq (sym (ap (λ o. some (later_of (λ d. d.created_at) r o)) e) ∙ h))
  | inr (y, e) ↦
      later r y x rows (last_by-NotNewer rows y e)
        (some_eq (sym (ap (λ o. some (later_of (λ d. d.created_at) r o)) e) ∙ h))
]
  where
    alone : rows ≡ [] → r ≡ x → NotNewer x (r ∷ rows)
    alone e q = rw (e, ← q) (omega arith, tt)

abbrev Of : Text → Dated → Type 0
Of domain r = text_eq r.domain domain ≡ true

of_domain-Of : (domain : Text) (rows : List Dated) → All (Of domain) (of_domain domain rows)
of_domain-Of domain [] = tt
of_domain-Of domain (r ∷ rows) = elim (Bool-cases (text_eq r.domain domain)) [
  | inl e ↦ rw e (e, of_domain-Of domain rows)
  | inr e ↦ rw e (of_domain-Of domain rows)
]

picked :
    (domain : Text) (r y : Dated) (b : Bool)
    → Of domain r
    → Of domain y
    → Of domain (if b then y else r)
picked domain r y true hr hy = hy
picked domain r y false hr hy = hr

last_by-Of :
    (domain : Text) (rows : List Dated) (x : Dated)
    → All (Of domain) rows
    → last_by (λ r. r.created_at) rows ≡ some x
    → Of domain x
last_by-Of domain [] x hs h = cc
last_by-Of domain (r ∷ rows) x (hr, hs) h = elim (Option-cases (last_by (λ d. d.created_at) rows)) [
  | inl e ↦
      subst (Of domain) (some_eq (sym (ap (λ o. some (later_of (λ d. d.created_at) r o)) e) ∙ h)) hr
  | inr (y, e) ↦
      subst (Of domain) (some_eq (sym (ap (λ o. some (later_of (λ d. d.created_at) r o)) e) ∙ h))
        (picked domain r y (ltb r.created_at y.created_at) hr (last_by-Of domain rows y hs e))
]

-- No row of the domain of a row is newer.
abbrev pub IsLatest : List Dated → Dated → Type 0
IsLatest rows x = All (λ r. r.created_at ≤ x.created_at) (of_domain x.domain rows)

latest_of-IsLatest :
    (rows : List Dated) (domain : Text) (x : Dated)
    → latest_of rows domain ≡ some x
    → IsLatest rows x
latest_of-IsLatest rows domain x h =
    subst (λ d. NotNewer x (of_domain d rows))
      (sym (
        (text_eq_iff x.domain domain).0
          (last_by-Of domain (of_domain domain rows) x (of_domain-Of domain rows) h)))
      (last_by-NotNewer (of_domain domain rows) x h)

All-present :
    (rows : List Dated) (domains : List Text)
    → All (IsLatest rows) (present (map (latest_of rows) domains))
All-present rows [] = tt
All-present rows (d ∷ ds) = elim (Option-cases (latest_of rows d)) [
  | inl e ↦ rw e (All-present rows ds)
  | inr (x, e) ↦ rw e (latest_of-IsLatest rows d x e, All-present rows ds)
]

-- No report of the domain of a report that is counted is newer.
pub latest_rows-IsLatest :
    (collates : Text → Text → Bool) (rows : List Dated)
    → All (IsLatest rows) (latest_rows collates rows)
unfolding latest_rows
latest_rows-IsLatest collates rows =
    All-present rows (sort_by collates (nub (map (λ r. r.domain) rows)))
