-- ===== src/Robots/Address/Mapped.antt =====
-- IPv4 addresses inside IPv6 notation, and texts that are no address.
use geo_readiness.Common.{
  ℕ, ◌≡◌, inl, inr, refl, ap, ◌∙◌, true, List, [], ◌∷◌, ◌++◌, ◌==◌, every, arith, none, some,
  Bool-cases, and_parts, All, All-append,
}
use geo_readiness.Common.Text.{Text, codes, lower, split_on, glue, is_digit, has_unit}
use geo_readiness.Common.TextLaws.{IsSolid, IsLower, trim-IsSolid, lower-IsLower}
use geo_readiness.Common.Patterns.{is_dotted_quad, is_short_number}
use geo_readiness.Robots.Address.{
  ipv4_is_public, is_ipv6_unit, judge_text, mapped_part, plain_ipv6_is_public, ipv6_is_public,
  is_public_address,
}

-- The characters of an address: nothing to trim, nothing to lower-case.
abbrev pub IsPlain : Text → Type 0
IsPlain s = All (λ c. is_ipv6_unit c ≡ true) s

IsPlain-IsSolid : (s : Text) → IsPlain s → IsSolid s
IsPlain-IsSolid [] h = tt
IsPlain-IsSolid (c ∷ s) (p, h) = (ground arith, IsPlain-IsSolid s h)

IsPlain-IsLower : (s : Text) → IsPlain s → IsLower s
IsPlain-IsLower [] h = tt
IsPlain-IsLower (c ∷ s) (p, h) = (ground arith, IsPlain-IsLower s h)

every-IsPlain : (s : Text) → IsPlain s → every is_ipv6_unit s ≡ true
every-IsPlain [] h = refl
every-IsPlain (c ∷ s) (p, h) = rw p (every-IsPlain s h)

-- On the characters of an address with a colon the verdict is that of the IPv6 tests.
pub is_public_address-IsPlain :
    (s : Text)
    → IsPlain s
    → has_unit b':' s ≡ true
    → is_public_address s
      ≡ elim (mapped_part s) [ some q ↦ ipv4_is_public q | none ↦ plain_ipv6_is_public s ]
unfolding is_public_address judge_text ipv6_is_public
is_public_address-IsPlain [] h k = cc
is_public_address-IsPlain (c ∷ s) h k =
    ap judge_text (
      ap lower (trim-IsSolid (c ∷ s) (IsPlain-IsSolid (c ∷ s) h))
      ∙ lower-IsLower (c ∷ s) (IsPlain-IsLower (c ∷ s) h))
    ∙ rw (k, every-IsPlain (c ∷ s) h)

-- A part of a dotted quad is made of digits.
digits-IsPlain : (s : Text) → every is_digit s ≡ true → IsPlain s
digits-IsPlain [] h = tt
digits-IsPlain (c ∷ s) h = (ground arith, digits-IsPlain s (ground arith))

every_digits : (ps : List Text) → every is_short_number ps ≡ true → every (every is_digit) ps ≡ true
every_digits [] h = refl
every_digits (p ∷ ps) h = ground (arith, every_digits ps)

glue_digits :
    (c : ℕ) (ps : List Text)
    → every (every is_digit) (glue c ps) ≡ true
    → (is_digit c ≡ true) × (every (every is_digit) ps ≡ true)
glue_digits c [] h = ground arith
glue_digits c (p ∷ ps) h = ground arith

split-IsPlain : (s : Text) → every (every is_digit) (split_on b'.' s) ≡ true → IsPlain s
unfolding split_on
split-IsPlain [] h = tt
split-IsPlain (c ∷ s) h = elim (Bool-cases (c == b'.')) [
  | inl dot ↦ (ground arith, split-IsPlain s (rw dot at h))
  | inr other ↦
      let (here, later) = glue_digits c (split_on b'.' s) (rw other at h) in
      (ground arith, split-IsPlain s later)
]

pub is_dotted_quad-IsPlain : (s : Text) → is_dotted_quad s ≡ true → IsPlain s
unfolding is_dotted_quad
is_dotted_quad-IsPlain s h = split-IsPlain s (every_digits (split_on b'.' s) (and_parts _ _ h).1)

-- An IPv4 address written as `::ffff:a.b.c.d` is judged as the IPv4 address.
pub is_public_address-mapped :
    (s : Text)
    → is_dotted_quad s ≡ true
    → is_public_address (codes "::ffff:" ++ s) ≡ ipv4_is_public s
unfolding mapped_part
is_public_address-mapped s h =
    let plain : IsPlain (codes "::ffff:" ++ s) =
      All-append (λ c. is_ipv6_unit c ≡ true) (codes "::ffff:") s
        (refl, (refl, (refl, (refl, (refl, (refl, (refl, tt))))))) (is_dotted_quad-IsPlain s h) in
    rw (is_public_address-IsPlain (codes "::ffff:" ++ s) plain refl) (rw h)
