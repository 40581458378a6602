-- ===== src/Robots/Parse/Root.antt =====
-- Which rules of a robots.txt are about the whole site: `governsRoot` of
-- apps/web/lib/robots/parse.ts and the tests of `rootVerdict` against a plain description.
use geo_readiness.Common.{
  ◌≡◌, ◌↔◌, ◌⊎◌, inl, inr, refl, Bool, true, false, List, [], ◌∷◌, any, Bool-cases, arith,
}
use geo_readiness.Common.Text.{Text, codes, text_eq, text_eq_iff, is_empty, trim}
use geo_readiness.Robots.Parse.{RobotsRule, governs_root, is_blocking, is_allowing}

module _ {ℓ} {A : Type ℓ} (P : A → Type 0) where
  -- Some element has the property.
  abbrev pub AnyOf : List A → Type 0
  AnyOf [] = ⊥
  AnyOf (x ∷ xs) = P x ⊎ AnyOf xs

  module _ (p : A → Bool) (f : (x : A) → (p x ≡ true) ↔ P x) where
    any-AnyOf : (xs : List A) → any p xs ≡ true → AnyOf xs
    any-AnyOf [] h = cc
    any-AnyOf (x ∷ xs) h = elim (Bool-cases (p x)) [
      | inl e ↦ inl ((f x).0 e)
      | inr e ↦ inr (any-AnyOf xs (rw e at h))
    ]

    AnyOf-any : (xs : List A) → AnyOf xs → any p xs ≡ true
    AnyOf-any [] m = absurd m
    AnyOf-any (x ∷ xs) (inl q) = rw ((f x).1 q) refl
    AnyOf-any (x ∷ xs) (inr m) = ground (arith, AnyOf-any xs m)

    pub any_iff : (xs : List A) → (any p xs ≡ true) ↔ AnyOf xs
    any_iff xs = (any-AnyOf xs, AnyOf-any xs)

-- A path that stands for the whole site.
abbrev pub Root : Text → Type 0
Root p = (trim p ≡ codes "/") ⊎ ((trim p ≡ codes "/*") ⊎ (trim p ≡ codes "*"))

governs_root_iff : (p : Text) → (governs_root p ≡ true) ↔ Root p
unfolding governs_root
governs_root_iff p = (to, back)
  where
    to : governs_root p ≡ true → Root p
    to h = elim (Bool-cases (text_eq (trim p) (codes "/"))) [
      | inl e ↦ inl ((text_eq_iff (trim p) (codes "/")).0 e)
      | inr e ↦ elim (Bool-cases (text_eq (trim p) (codes "/*"))) [
        | inl f ↦ inr (inl ((text_eq_iff (trim p) (codes "/*")).0 f))
        | inr f ↦ inr (inr ((text_eq_iff (trim p) (codes "*")).0 (ground arith)))
      ]
    ]

    back : Root p → governs_root p ≡ true
    back (inl e) = rw e refl
    back (inr (inl e)) = rw e refl
    back (inr (inr e)) = rw e refl

-- The rule forbids, or allows, the whole site.
abbrev pub RootRule : Bool → RobotsRule → Type 0
RootRule allow r = (r.allow ≡ allow) × Root r.path

root_not_empty : (p : Text) → governs_root p ≡ true → is_empty p ≡ false
unfolding governs_root trim
root_not_empty [] h = cc
root_not_empty (c ∷ p) h = refl

pub is_blocking_iff : (r : RobotsRule) → (is_blocking r ≡ true) ↔ RootRule false r
is_blocking_iff r = (
  λ h. (ground arith, (governs_root_iff r.path).0 (ground arith)),
  λ (a, b).
      rw (a, root_not_empty r.path ((governs_root_iff r.path).1 b), (governs_root_iff r.path).1 b)
        refl,
)

pub is_allowing_iff : (r : RobotsRule) → (is_allowing r ≡ true) ↔ RootRule true r
is_allowing_iff r = (
  λ h. (ground arith, (governs_root_iff r.path).0 (ground arith)),
  λ (a, b). rw (a, (governs_root_iff r.path).1 b) refl,
)
