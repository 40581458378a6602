-- ===== src/Robots/Address/Gaps.antt =====
-- Texts that the address tests let through although they stand for no public address.
use geo_readiness.Common.{
  ℕ, ◌≡◌, refl, ◌∙◌, Bool, true, false, [], ◌∷◌, ◌++◌, ◌==◌, arith, some, ◌&&◌, ◌||◌, leb, All,
  All-append,
}
use geo_readiness.Common.Text.{Text, codes, is_digit, has_unit}
use geo_readiness.Common.TextLaws.{split_on-none, split_on-cons}
use geo_readiness.Common.Patterns.{is_dotted_quad, to_number}
use geo_readiness.Robots.Address.{
  octet, parse_ipv4, judge, quad_is_public, ipv4_is_public, is_ipv6_unit, mapped_part,
  plain_ipv6_is_public, is_public_address,
}
use geo_readiness.Robots.Address.Mapped.{IsPlain, is_public_address-IsPlain}

-- The groups of an IPv6 address: hexadecimal digits in lower case, and colons.
abbrev pub is_group_unit : ℕ → Bool
is_group_unit c = is_digit c || (leb b'a' c && leb c b'f') || c == b':'

abbrev pub IsGroups : Text → Type 0
IsGroups s = All (λ c. is_group_unit c ≡ true) s

IsGroups-IsPlain : (s : Text) → IsGroups s → IsPlain s
IsGroups-IsPlain [] h = tt
IsGroups-IsPlain (c ∷ s) (p, h) = (ground arith, IsGroups-IsPlain s h)

no_point : (s : Text) → IsGroups s → All (λ a. (a == b'.') ≡ false) s
no_point [] h = tt
no_point (c ∷ s) (p, h) = (ground arith, no_point s h)

has_no_point : (s : Text) → IsGroups s → has_unit b'.' s ≡ false
has_no_point [] h = refl
has_no_point (c ∷ s) (p, h) = ground (arith, has_no_point s h)

not-is_dotted_quad : (s : Text) → IsGroups s → is_dotted_quad s ≡ false
unfolding is_dotted_quad
not-is_dotted_quad s h = rw (split_on-none b'.' s (no_point s h))

-- A mapped address whose IPv4 part is written in hexadecimal groups is judged public whichever
-- IPv4 address it carries.
pub is_public_address-hex_mapped :
    (s : Text) → IsGroups s → is_public_address (codes "::ffff:" ++ s) ≡ true
unfolding mapped_part plain_ipv6_is_public
is_public_address-hex_mapped s h =
    let plain : IsPlain (codes "::ffff:" ++ s) =
      All-append (λ c. is_ipv6_unit c ≡ true) (codes "::ffff:") s
        (refl, (refl, (refl, (refl, (refl, (refl, (refl, tt))))))) (IsGroups-IsPlain s h) in
    is_public_address-IsPlain (codes "::ffff:" ++ s) plain refl
    ∙ rw (not-is_dotted_quad s h) (rw (has_no_point s h))

octet_empty : octet [] ≡ some 0
unfolding octet to_number
octet_empty = refl

-- A part that is missing counts as 0: the text `a...` is judged as the address a.0.0.0, although
-- it is no IPv4 address.
pub ipv4_is_public-missing_parts :
    (p : Text) (a : ℕ)
    → All (λ c. (c == b'.') ≡ false) p
    → octet p ≡ some a
    → ipv4_is_public (p ++ codes "...")
      ≡ quad_is_public (record { first = a; second = 0; third = 0; fourth = 0 })
unfolding ipv4_is_public parse_ipv4 judge
ipv4_is_public-missing_parts p a h e = rw (split_on-cons b'.' p (codes "..") h) (
    rw (split_on-cons b'.' [] (codes ".") tt, split_on-cons b'.' [] [] tt, split_on-none b'.' [] tt)
      (rw (e, octet_empty)))
