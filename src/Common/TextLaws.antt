-- ===== src/Common/TextLaws.antt =====
-- Laws of the text operations: trimming, lower-casing and splitting leave plain texts alone.
use Prim.Native.Nat.{ℕ}
use mathlib.Core.Path.{◌≡◌, refl}
use mathlib.Core.Bool.{false}
use mathlib.Core.List.{[], ◌∷◌, ◌++◌}
use native.Mathlib.Omega.{arith}
use geo_readiness.Common.Tests.{◌==◌}
use geo_readiness.Common.Lists.{All}
use geo_readiness.Common.Text.{
  Text, is_space, trim_start, trim_end, trim, lower_unit, lower, split_on, split_lines, before,
}

-- A text with no white space in it.
abbrev pub IsSolid : Text → Type 0
IsSolid s = All (λ c. is_space c ≡ false) s

trim_start-IsSolid : (s : Text) → IsSolid s → trim_start s ≡ s
trim_start-IsSolid [] h = refl
trim_start-IsSolid (c ∷ s) (p, h) = rw p

trim_end-IsSolid : (s : Text) → IsSolid s → trim_end s ≡ s
trim_end-IsSolid [] h = refl
trim_end-IsSolid (c ∷ []) (p, h) = rw p
trim_end-IsSolid (c ∷ d ∷ s) (p, h) = rw (trim_end-IsSolid (d ∷ s) h)

-- Trimming leaves a text without white space alone.
pub trim-IsSolid : (s : Text) → IsSolid s → trim s ≡ s
unfolding trim
trim-IsSolid s h = rw (trim_start-IsSolid s h) (trim_end-IsSolid s h)

lower_unit_idem : (c : ℕ) → lower_unit (lower_unit c) ≡ lower_unit c
lower_unit_idem c = ground arith

-- Lower-casing twice is lower-casing once.
pub lower_idem : (s : Text) → lower (lower s) ≡ lower s
unfolding lower
lower_idem [] = refl
lower_idem (c ∷ s) = cc (lower_unit_idem c, lower_idem s)

-- A text with no capital letter in it.
abbrev pub IsLower : Text → Type 0
IsLower s = All (λ c. lower_unit c ≡ c) s

pub lower-IsLower : (s : Text) → IsLower s → lower s ≡ s
unfolding lower
lower-IsLower [] h = refl
lower-IsLower (c ∷ s) (p, h) = cc (p, lower-IsLower s h)

pub IsLower-lower : (s : Text) → IsLower (lower s)
unfolding lower
IsLower-lower [] = tt
IsLower-lower (c ∷ s) = (lower_unit_idem c, IsLower-lower s)

-- A text that does not hold the separator is one part.
pub split_on-none : (c : ℕ) (s : Text) → All (λ a. (a == c) ≡ false) s → split_on c s ≡ s ∷ []
unfolding split_on
split_on-none c [] h = refl
split_on-none c (a ∷ s) (p, h) = rw (p, split_on-none c s h)

-- The first separator ends the first part.
pub split_on-cons :
    (c : ℕ) (p s : Text)
    → All (λ a. (a == c) ≡ false) p
    → split_on c (p ++ c ∷ s) ≡ p ∷ split_on c s
unfolding split_on
split_on-cons c [] s h = ground arith
split_on-cons c (a ∷ p) s (q, h) = rw (q, split_on-cons c p s h)

-- The end of a text is not trimmed where it ends in a text without white space.
pub trim_end-append :
    (s : Text) (c : ℕ) (t : Text) → IsSolid (c ∷ t) → trim_end (s ++ c ∷ t) ≡ s ++ c ∷ t
trim_end-append [] c t h = trim_end-IsSolid (c ∷ t) h
trim_end-append (a ∷ []) c t h = rw (trim_end-IsSolid (c ∷ t) h)
trim_end-append (a ∷ b ∷ s) c t h = rw (trim_end-append (b ∷ s) c t h)

-- A line feed ends the first line.
pub split_lines-cons :
    (p s : Text)
    → All (λ a. ((a == 10) ≡ false) × ((a == 13) ≡ false)) p
    → split_lines (p ++ 10 ∷ s) ≡ p ∷ split_lines s
unfolding split_lines
split_lines-cons [] s h = refl
split_lines-cons (a ∷ p) s ((q, r), h) = rw (q, r, split_lines-cons p s h)

pub split_lines-none :
    (p : Text) → All (λ a. ((a == 10) ≡ false) × ((a == 13) ≡ false)) p → split_lines p ≡ p ∷ []
unfolding split_lines
split_lines-none [] h = refl
split_lines-none (a ∷ p) ((q, r), h) = rw (q, r, split_lines-none p h)

pub before-none : (c : ℕ) (s : Text) → All (λ a. (a == c) ≡ false) s → before c s ≡ s
unfolding before
before-none c [] h = refl
before-none c (a ∷ s) (p, h) = rw (p, before-none c s h)
