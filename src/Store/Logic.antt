-- ===== src/Store/Logic.antt =====
-- Reasoning about calls that may throw: what holds after a call that returns and after one that
-- throws, for every list of faults.
use geo_readiness.Common.{ℕ, Bool, true, false, ◌≡◌, refl, if◌then◌else◌, Bool-cases, inl, inr}
use geo_readiness.Errors.{Outcome, ok, err}
use geo_readiness.Store.{Db, World, M, and_then, query, faulty, settled, later}

-- `Q` of the value and the tables where the call returned, `E` of the tables where it threw.
abbrev pub After {ℓ} : {A : Type ℓ} → (A → Db → Type 0) → (Db → Type 0) → Outcome A × World → Type 0
After Q E (ok a, w) = Q a w.db
After Q E (err e, w) = E w.db

-- From `P`, the call ends in `Q` or throws in `E`.
abbrev pub Triple {ℓ} :
    {A : Type ℓ} → (Db → Type 0) → M A → (A → Db → Type 0) → (Db → Type 0) → Type 0
Triple P m Q E = (w : World) → P w.db → After Q E (m w)

module _ {ℓ κ} {A : Type ℓ} {B : Type κ} (R : A → Db → Type 0) (Q : B → Db → Type 0)
    (E : Db → Type 0) where
  pub After-and_then :
      (k : A → M B)
      → ((a : A) → Triple (R a) (k a) Q E)
      → (o : Outcome A × World) → After R E o
      → After Q E (and_then k o)
  After-and_then k step (ok a, w) h = step a w h
  After-and_then k step (err e, w) h = h

module _ {ℓ} {A : Type ℓ} (Q : A → Db → Type 0) (E : Db → Type 0) where
  abbrev pub On : A × Db → Type 0
  On (a, db) = Q a db

  After-settled : (w : World) (r : A × Db) → On r → After Q E (settled w r)
  After-settled w (a, db) h = h

  pub After-query :
      (s : ℕ → Db → A × Db) (w : World) → On (s w.now w.db) → E w.db → After Q E (query s w)
  unfolding query
  After-query s w good bad = elim (Bool-cases (faulty w.faults)) [
    | inl e ↦ rw e bad
    | inr e ↦ rw e (After-settled (record w { faults = later w.faults }) (s w.now w.db) good)
  ]

  pub After-if :
      (b : Bool) (m n : M A) (w : World)
      → (b ≡ true → After Q E (m w))
      → (b ≡ false → After Q E (n w))
      → After Q E ((if b then m else n) w)
  After-if true m n w on_true on_false = on_true refl
  After-if false m n w on_true on_false = on_false refl

pub After-end {ℓ} :
    {A : Type ℓ} (I : Db → Type 0) (o : Outcome A × World) → After (λ a. I) I o → I (o.1).db
After-end I (ok a, w) h = h
After-end I (err e, w) h = h

-- Every call ends somehow.
pub anyway {ℓ} : {A : Type ℓ} (o : Outcome A × World) → After (λ a db. Unit) (λ db. Unit) o
anyway (ok a, w) = tt
anyway (err e, w) = tt
