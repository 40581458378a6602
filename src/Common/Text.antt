-- ===== src/Common/Text.antt =====
-- Strings as lists of UTF-16 code units, and the operations of JavaScript strings that the
-- program uses. Lower-casing is that of the letters up to U+00FF.
use Prim.Native.Char.{code}
use Prim.Native.Nat.{ℕ, ◌+◌}
use Prim.Native.String.{String}
use mathlib.Core.Path.{◌≡◌, refl}
use mathlib.Core.Logic.{◌↔◌}
use mathlib.Core.Bool.{Bool, true, false, not, ◌&&◌, ◌||◌}
use mathlib.Core.List.{List, [], ◌∷◌, ◌++◌, map}
use native.Mathlib.Omega.{arith}
use geo_readiness.Common.Tests.{leb, ◌==◌, if◌then◌else◌}
use geo_readiness.Common.Lists.{any}

abbrev pub Text : Type 0
Text = List ℕ

-- The code units of a literal.
abbrev pub codes : String → Text
codes String.[] = []
codes (String.◌∷◌ c s) = code c ∷ codes s

-- `a === b`
abbrev pub text_eq : Text → Text → Bool
text_eq [] [] = true
text_eq (a ∷ s) (b ∷ t) = a == b && text_eq s t
text_eq [] (b ∷ t) = false
text_eq (a ∷ s) [] = false

pub text_eq_iff : (s t : Text) → (text_eq s t ≡ true) ↔ (s ≡ t)
text_eq_iff [] [] = ground arith
text_eq_iff (a ∷ s) (b ∷ t) = ground (arith, text_eq_iff s t)
text_eq_iff [] (b ∷ t) = ground arith
text_eq_iff (a ∷ s) [] = ground arith

pub text_eq_refl : (s : Text) → text_eq s s ≡ true
text_eq_refl s = (text_eq_iff s s).1 refl

abbrev pub is_empty : Text → Bool
is_empty [] = true
is_empty (a ∷ s) = false

-- `s.startsWith(p)`, with the pattern first.
abbrev pub starts_with : Text → Text → Bool
starts_with [] s = true
starts_with (a ∷ p) [] = false
starts_with (a ∷ p) (b ∷ s) = a == b && starts_with p s

-- `s.endsWith(p)`, with the pattern first.
abbrev pub ends_with : Text → Text → Bool
ends_with p [] = is_empty p
ends_with p (b ∷ s) = text_eq p (b ∷ s) || ends_with p s

-- `s.includes(c)` for one character.
abbrev pub has_unit : ℕ → Text → Bool
has_unit c s = any (λ a. a == c) s

-- The characters that `trim` and `\s` take for white space.
abbrev pub is_space : ℕ → Bool
is_space c =
    c == 32
    || (leb 9 c && leb c 13)
    || c == 0xa0
    || c == 0x1680
    || (leb 0x2000 c && leb c 0x200a)
    || c == 0x2028
    || c == 0x2029
    || c == 0x202f
    || c == 0x205f
    || c == 0x3000
    || c == 0xfeff

abbrev pub trim_start : Text → Text
trim_start [] = []
trim_start (c ∷ s) = if is_space c then trim_start s else c ∷ s

abbrev pub trim_end : Text → Text
trim_end [] = []
trim_end (c ∷ s) = if is_empty (trim_end s) && is_space c then [] else c ∷ trim_end s

unfoldable pub trim : Text → Text
trim s = trim_end (trim_start s)

abbrev pub lower_unit : ℕ → ℕ
lower_unit c =
    if (leb b'A' c && leb c b'Z') || (leb 0xc0 c && leb c 0xde && not (c == 0xd7))
    then c + 32
    else c

-- `s.toLowerCase()`
unfoldable pub lower : Text → Text
lower s = map lower_unit s

abbrev pub glue : ℕ → List Text → List Text
glue c [] = (c ∷ []) ∷ []
glue c (p ∷ ps) = (c ∷ p) ∷ ps

-- `s.split(c)` at one character: never an empty list.
unfoldable pub split_on : ℕ → Text → List Text
split_on c [] = [] ∷ []
split_on c (a ∷ s) = if a == c then [] ∷ split_on c s else glue a (split_on c s)

-- `s.split(c)[0]`
unfoldable pub before : ℕ → Text → Text
before c [] = []
before c (a ∷ s) = if a == c then [] else a ∷ before c s

abbrev pub opens_with : ℕ → Text → Bool
opens_with c [] = false
opens_with c (a ∷ s) = a == c

-- `s.split(/\r?\n/)`: a carriage return right before the line feed goes with it.
unfoldable pub split_lines : Text → List Text
split_lines [] = [] ∷ []
split_lines (a ∷ s) =
    if a == 10
    then [] ∷ split_lines s
    else if a == 13 && opens_with 10 s
    then split_lines s
    else glue a (split_lines s)

abbrev pub join : Text → List Text → Text
join sep [] = []
join sep (p ∷ []) = p
join sep (p ∷ q ∷ ps) = p ++ sep ++ join sep (q ∷ ps)

abbrev pub is_digit : ℕ → Bool
is_digit c = leb b'0' c && leb c b'9'

-- Membership in a list of texts, `xs.includes(t)`.
abbrev pub has_text : Text → List Text → Bool
has_text t ps = any (λ p. text_eq p t) ps
