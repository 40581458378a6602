-- ===== src/Common/Patterns.antt =====
-- Shapes of text that several regular expressions of the program share, and `Number(text)`.
use geo_readiness.Common.Text.{Text, is_empty, trim, lower, split_on, is_digit}
use geo_readiness.Common.Lists.{length, every}
use geo_readiness.Common.Tests.{leb, ◌==◌, if◌then◌else◌}
use Prim.Native.Nat.{ℕ, ◌+◌, ◌-◌, ◌*◌, ◌/◌, ◌%◌, ◌^◌}
use mathlib.Core.Bool.{Bool, ◌&&◌, ◌||◌, not}
use mathlib.Core.List.{List, [], ◌∷◌}
use mathlib.Core.Option.{Option, none, some}

-- `\d{1,3}`
abbrev pub is_short_number : Text → Bool
is_short_number s = not (is_empty s) && leb (length s) 3 && every is_digit s

-- `^\d{1,3}(\.\d{1,3}){3}$`
unfoldable pub is_dotted_quad : Text → Bool
is_dotted_quad s = let parts = split_on b'.' s in length parts == 4 && every is_short_number parts

abbrev pub is_hex : ℕ → Bool
is_hex c = is_digit c || (leb b'a' c && leb c b'f') || (leb b'A' c && leb c b'F')

abbrev digit_value : ℕ → ℕ
digit_value c =
    if is_digit c then c - b'0' else if leb b'a' c && leb c b'z' then c - b'a' + 10 else 36

-- The value of a run of digits in the base, if each is one.
digits_value : ℕ → ℕ → Text → Option ℕ
digits_value base acc [] = some acc
digits_value base acc (c ∷ s) =
    let rest = digits_value base (acc * base + digit_value c) s in
    if leb base (digit_value c) then none else rest

-- At least one digit.
number_in : ℕ → Text → Option ℕ
number_in base [] = none
number_in base (c ∷ s) = digits_value base 0 (c ∷ s)

-- `m * 10 ^ k` and `m / 10 ^ k`, the second only where it is whole.
scale_up : Option ℕ → Option ℕ → Option ℕ
scale_up (some m) (some k) = some (m * 10 ^ k)
scale_up (some m) none = none
scale_up none k = none

scale_down : Option ℕ → Option ℕ → Option ℕ
scale_down (some m) (some k) = if m % 10 ^ k == 0 then some (m / 10 ^ k) else none
scale_down (some m) none = none
scale_down none k = none

with_exponent : Option ℕ → Text → Option ℕ
with_exponent m [] = none
with_exponent m (c ∷ s) =
    if c == b'-'
    then scale_down m (number_in 10 s)
    else if c == b'+'
    then scale_up m (number_in 10 s)
    else scale_up m (number_in 10 (c ∷ s))

-- Unsigned decimal digits, with an exponent or without.
decimal : List Text → Option ℕ
decimal (m ∷ []) = number_in 10 m
decimal (m ∷ e ∷ []) = with_exponent (number_in 10 m) e
decimal _ = none

only_zero : Option ℕ → Option ℕ
only_zero none = none
only_zero (some n) = if n == 0 then some 0 else none

-- A numeral with its sign or its base prefix.
numeral : Text → Option ℕ
numeral [] = some 0
numeral (c ∷ []) = decimal (split_on b'e' (c ∷ []))
numeral (c ∷ d ∷ s) =
    if c == b'-'
    then only_zero (decimal (split_on b'e' (d ∷ s)))
    else if c == b'+'
    then decimal (split_on b'e' (d ∷ s))
    else if c == b'0' && d == b'x'
    then number_in 16 s
    else if c == b'0' && d == b'o'
    then number_in 8 s
    else if c == b'0' && d == b'b'
    then number_in 2 s
    else decimal (split_on b'e' (c ∷ d ∷ s))

-- `Number(s)` of a text with no point in it: the value where it is a whole number from 0 up, and
-- `none` for `NaN`, a negative or fractional value and infinity. The empty text counts as 0.
unfoldable pub to_number : Text → Option ℕ
unfolding trim lower split_on numeral decimal with_exponent only_zero scale_up scale_down number_in
    digits_value
to_number s = numeral (lower (trim s))
