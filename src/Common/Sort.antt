-- ===== src/Common/Sort.antt =====
-- `Array.prototype.sort`, which is stable: insertion sort by the test "a comes before b".
use mathlib.Core.Path.{◌≡◌, refl, ap, ◌∙◌}
use mathlib.Core.Bool.{Bool}
use mathlib.Core.List.{List, [], ◌∷◌, map}
use Prim.Native.Nat.{suc}
use native.Mathlib.Omega.{arith}
use geo_readiness.Common.Tests.{if◌then◌else◌, Bool-cases}
use mathlib.Core.Logic.{inl, inr}
use geo_readiness.Common.Lists.{length, All}

module _ {ℓ} {A : Type ℓ} (precedes : A → A → Bool) where
  unfoldable pub place : A → List A → List A
  place x [] = x ∷ []
  place x (y ∷ ys) = if precedes y x then y ∷ place x ys else x ∷ y ∷ ys

  unfoldable pub sort_by : List A → List A
  sort_by [] = []
  sort_by (x ∷ xs) = place x (sort_by xs)

  length-place : (x : A) (ys : List A) → length (place x ys) ≡ suc (length ys)
  unfolding place
  length-place x [] = refl
  length-place x (y ∷ ys) = ground (arith, length-place x ys)

  pub length-sort_by : (xs : List A) → length (sort_by xs) ≡ length xs
  unfolding sort_by
  length-sort_by [] = refl
  length-sort_by (x ∷ xs) = length-place x (sort_by xs) ∙ ap suc (length-sort_by xs)

-- A change that the order does not see commutes with sorting.
module _ {ℓ} {A : Type ℓ} (precedes : A → A → Bool) (f : A → A)
    (same : (x y : A) → precedes (f x) (f y) ≡ precedes x y) where
  place-map : (x : A) (ys : List A) → place precedes (f x) (map f ys) ≡ map f (place precedes x ys)
  unfolding place
  place-map x [] = refl
  place-map x (y ∷ ys) = ground (arith, place-map x ys, same y x)

  pub sort_by-map : (xs : List A) → sort_by precedes (map f xs) ≡ map f (sort_by precedes xs)
  unfolding sort_by
  sort_by-map [] = refl
  sort_by-map (x ∷ xs) =
      ap (place precedes (f x)) (sort_by-map xs) ∙ place-map x (sort_by precedes xs)

module _ {ℓ κ} {A : Type ℓ} (precedes : A → A → Bool) (P : A → Type κ) where
  All-place : (x : A) (ys : List A) → P x → All P ys → All P (place precedes x ys)
  unfolding place
  All-place x [] p h = (p, tt)
  All-place x (y ∷ ys) p (q, h) = elim (Bool-cases (precedes y x)) [
    | inl e ↦ rw e (q, All-place x ys p h)
    | inr e ↦ rw e (p, (q, h))
  ]

  pub All-sort_by : (xs : List A) → All P xs → All P (sort_by precedes xs)
  unfolding sort_by
  All-sort_by [] h = tt
  All-sort_by (x ∷ xs) (p, h) = All-place x (sort_by precedes xs) p (All-sort_by xs h)
