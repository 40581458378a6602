-- ===== src/Robots/Address.antt =====
-- Which addresses the checker may connect to: `ipv4IsPublic` and `isPublicAddress` of
-- apps/web/lib/robots/fetch.ts.
pub mod Blocks
pub mod Mapped
pub mod Gaps
use geo_readiness.Common.{
  ℕ, Bool, true, false, Option, none, some, List, [], ◌∷◌, ◌&&◌, ◌||◌, not, ltb, leb, ◌==◌,
  if◌then◌else◌, every, map,
}
use geo_readiness.Common.Text.{
  Text, codes, text_eq, is_empty, starts_with, has_unit, trim, lower, split_on, is_digit,
}
use geo_readiness.Common.Patterns.{to_number, is_dotted_quad}

-- The parts of `a.b.c.d`, each a whole number up to 255.
pub record Quad : Type 0 where
  pub first : ℕ
  pub second : ℕ
  pub third : ℕ
  pub fourth : ℕ

unfoldable pub octet : Text → Option ℕ
octet part = elim (to_number part) [ none ↦ none | some n ↦ if leb n 255 then some n else none ]

abbrev to_quad : List (Option ℕ) → Option Quad
to_quad (some a ∷ some b ∷ some c ∷ some d ∷ []) =
    some (record { first = a; second = b; third = c; fourth = d })
to_quad _ = none

unfoldable pub parse_ipv4 : Text → Option Quad
parse_ipv4 addr = to_quad (map octet (split_on b'.' addr))

-- The tests of `ipv4IsPublic` on the parts, in the order of the source.
unfoldable pub quad_is_public : Quad → Bool
quad_is_public q =
    let a = q.first in
    let b = q.second in
    if a == 0 || a == 10 || a == 127
    then false
    else if a == 169 && b == 254
    then false
    else if a == 172 && leb 16 b && leb b 31
    then false
    else if a == 192 && b == 168
    then false
    else if a == 100 && leb 64 b && leb b 127
    then false
    else if a == 198 && (b == 18 || b == 19)
    then false
    else if a == 192 && b == 0
    then false
    else if a == 198 && b == 51
    then false
    else if a == 203 && b == 0
    then false
    else if leb 224 a
    then false
    else true

unfoldable pub judge : Option Quad → Bool
judge none = false
judge (some q) = quad_is_public q

unfoldable pub ipv4_is_public : Text → Bool
ipv4_is_public addr = judge (parse_ipv4 addr)

-- `[0-9a-f:.]`
abbrev pub is_ipv6_unit : ℕ → Bool
is_ipv6_unit c = is_digit c || (leb b'a' c && leb c b'f') || c == b':' || c == b'.'

-- `^::ffff:(...)$`: what stands behind the prefix, if it is a dotted quad.
unfoldable pub mapped_part : Text → Option Text
mapped_part (b1 ∷ b2 ∷ b3 ∷ b4 ∷ b5 ∷ b6 ∷ b7 ∷ s) =
    if text_eq (codes "::ffff:") (b1 ∷ b2 ∷ b3 ∷ b4 ∷ b5 ∷ b6 ∷ b7 ∷ []) && is_dotted_quad s
    then some s
    else none
mapped_part _ = none

-- `^f[cd]`
abbrev is_unique_local : Text → Bool
is_unique_local (f ∷ c ∷ s) = f == b'f' && (c == b'c' || c == b'd')
is_unique_local _ = false

-- `^fe[89ab]`
abbrev is_link_local : Text → Bool
is_link_local (f ∷ e ∷ c ∷ s) =
    f == b'f' && e == b'e' && (c == b'8' || c == b'9' || c == b'a' || c == b'b')
is_link_local _ = false

-- The tests behind that for a mapped address.
unfoldable pub plain_ipv6_is_public : Text → Bool
plain_ipv6_is_public a =
    if has_unit b'.' a
    then false
    else if text_eq a (codes "::") || text_eq a (codes "::1")
    then false
    else if is_unique_local a
    then false
    else if is_link_local a
    then false
    else not (starts_with (codes "ff") a)

unfoldable pub ipv6_is_public : Text → Bool
ipv6_is_public a =
    if not (every is_ipv6_unit a)
    then false
    else elim (mapped_part a) [ some s ↦ ipv4_is_public s | none ↦ plain_ipv6_is_public a ]

-- The tests on the trimmed text in lower case.
unfoldable pub judge_text : Text → Bool
judge_text a =
    if is_empty a
    then false
    else if not (has_unit b':' a)
    then ipv4_is_public a
    else ipv6_is_public a

unfoldable pub is_public_address : Text → Bool
is_public_address addr = judge_text (lower (trim addr))
