-- ===== src/Store/Transaction.antt =====
-- `withTransaction` of apps/web/lib/db.ts is all or nothing.
use geo_readiness.Common.{◌≡◌, Option, some, Bool-cases, inl, inr}
use geo_readiness.Errors.{Outcome, ok, err}
use geo_readiness.Store.{
  Db, World, M, with_transaction, begin, closed, inside, rolled_back, faulty, ◌>>◌,
}
use geo_readiness.Store.Logic.{After, After-query, After-and_then}

-- A transaction that returned did what its body does from the tables before it, and one that threw
-- did nothing.
abbrev pub AllOrNothing : {A : Type 0} → M A → Db → Outcome A × World → Type 0
AllOrNothing body before (ok a, w) =
    (start : World) × (end : World) × (start.db ≡ before)
    × (body start ≡ (ok a, end))
    × (w.db ≡ end.db)
AllOrNothing body before (err e, w) = w.db ≡ before

module _ {ℓ} {A : Type ℓ} (Q : A → Db → Type 0) (I : Db → Type 0) where
  abbrev Ends : Option Db × (Outcome A × World) → Type 0
  Ends (begun, o) = After Q (λ db. I (rolled_back begun db)) o

  After-closed : (p : Option Db × (Outcome A × World)) → Ends p → After Q I (closed p)
  After-closed (begun, (ok a, w)) k = k
  After-closed (begun, (err e, w)) h = elim (Bool-cases (faulty w.faults)) [
    | inl q ↦ rw q h
    | inr q ↦ rw q h
  ]

  abbrev Safe : Option Db → Db → Type 0
  Safe begun db = I db × ((d : Db) → I (rolled_back begun d))

  After-inside :
      (body : M A) (o : Outcome (Option Db) × World)
      → ((w1 : World) → I w1.db → After Q (λ db. Unit) (body w1))
      → After Safe I o
      → Ends (inside body o)
  After-inside body (err e, w) step h = h
  After-inside body (ok begun, w) step (h, back) =
      After-and_then Q Q (λ db. I (rolled_back begun db)) _
        (λ a w2 h2.
          After-and_then (λ t. Q a) Q (λ db. I (rolled_back begun db)) _ (λ t w3 h3. h3) _
            (After-query (λ t. Q a) (λ db. I (rolled_back begun db)) (λ now db. (tt, db)) w2 h2
              (back w2.db)))
        (body w) (backed (body w) (step w h))
    where
      backed :
          (o : Outcome A × World)
          → After Q (λ db. Unit) o
          → After Q (λ db. I (rolled_back begun db)) o
      backed (ok a, v) k = k
      backed (err e, v) k = back v.db

  -- What holds before a transaction holds after it throws, whatever its body does till then.
  pub After-with_transaction :
      (body : M A) (w : World)
      → I w.db
      → ((w1 : World) → I w1.db → After Q (λ db. Unit) (body w1))
      → After Q I (with_transaction body w)
  unfolding with_transaction
  After-with_transaction body w h step =
      After-and_then (λ t. I) Q I _
        (λ t w1 h1. After-closed (inside body (begin w1)) (
          After-inside body (begin w1) step
            (After-query Safe I (λ now db. (some db, db)) w1 (h1, λ d. h1) h1)))
        _ (After-query (λ t. I) I (λ now db. (tt, db)) w h h)
