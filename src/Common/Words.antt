-- ===== src/Common/Words.antt =====
-- Words in texts: what the program's regular expressions on prose match, replace and split, and
-- numbers written out. A word unit is an ASCII letter, a digit or an underscore, as `\b` has it.
use Prim.Native.Nat.{ℕ, zero, suc, ◌+◌, ◌-◌, ◌/◌, ◌%◌}
use mathlib.Core.Bool.{Bool, true, false, not, ◌&&◌, ◌||◌}
use mathlib.Core.List.{List, [], ◌∷◌, ◌++◌}
use mathlib.Core.Option.{Option, none, some}
use geo_readiness.Common.Tests.{leb, ◌==◌, if◌then◌else◌}
use geo_readiness.Common.Lists.{length, keep}
use geo_readiness.Common.Text.{
  Text, is_empty, starts_with, is_space, trim_start, lower, is_digit, has_text,
}

abbrev pub is_word_unit : ℕ → Bool
is_word_unit c = (leb b'a' c && leb c b'z') || (leb b'A' c && leb c b'Z') || is_digit c || c == b'_'

abbrev pub head_is_word : Text → Bool
head_is_word [] = false
head_is_word (c ∷ s) = is_word_unit c

abbrev same : Bool → Bool → Bool
same true b = b
same false b = not b

-- `s.slice(n)`
abbrev pub drop : ℕ → Text → Text
drop zero s = s
drop (suc n) [] = []
drop (suc n) (c ∷ s) = drop n s

abbrev last_or : Bool → Text → Bool
last_or b [] = b
last_or b (c ∷ s) = last_or (is_word_unit c) s

-- Whether `\bw\b` matches at the start of a text; `before` tells whether a word unit stands before
-- it. The word is not empty.
abbrev pub matches_word : Bool → Text → Text → Bool
matches_word before w s =
    starts_with w s
    && not (same before (head_is_word s))
    && not (same (last_or before w) (head_is_word (drop (length w) s)))

-- The length of the first of the words that matches at the start of a text.
abbrev pub match_length : Bool → List Text → Text → Option ℕ
match_length before [] s = none
match_length before (w ∷ ws) s =
    if matches_word before w s then some (length w) else match_length before ws s

abbrev skip_of : Option ℕ → ℕ
skip_of none = 0
skip_of (some n) = n - 1

abbrev one_if : Option ℕ → ℕ
one_if none = 0
one_if (some n) = 1

abbrev fresh_match : ℕ → Bool → List Text → Text → Option ℕ
fresh_match zero before ws s = match_length before ws s
fresh_match (suc k) before ws s = none

-- `k` units belong to the last match.
count_from : List Text → Bool → ℕ → Text → ℕ
count_from ws before k [] = 0
count_from ws before k (c ∷ s) =
    let m = fresh_match k before ws (c ∷ s) in
    one_if m + count_from ws (is_word_unit c) (k - 1 + skip_of m) s

-- `(s.match(/\b(w1|w2|…)\b/g) ?? []).length`
unfoldable pub count_words : List Text → Text → ℕ
unfolding count_from
count_words ws s = count_from ws false 0 s

-- A match whatever the capitals.
abbrev folded_match : ℕ → Bool → Text → Text → Option ℕ
folded_match k before w s = fresh_match k before (lower w ∷ []) (lower s)

abbrev kept_unit : ℕ → Option ℕ → ℕ → Text
kept_unit zero none c = c ∷ []
kept_unit zero (some n) c = []
kept_unit (suc k) m c = []

remove_from : Text → Bool → ℕ → Text → Text
unfolding lower
remove_from w before k [] = []
remove_from w before k (c ∷ s) =
    let m = folded_match k before w (c ∷ s) in
    kept_unit k m c ++ remove_from w (is_word_unit c) (k - 1 + skip_of m) s

-- `s.replace(/\bw\b/gi, "")` for a literal word that is not empty.
unfoldable pub remove_word : Text → Text → Text
unfolding remove_from
remove_word w s = remove_from w false 0 s

abbrev head_is_space : Text → Bool
head_is_space [] = false
head_is_space (c ∷ s) = is_space c

abbrev squeezed_unit : Bool → ℕ → Text → Text
squeezed_unit true c s = if is_space c then [] else c ∷ []
squeezed_unit false c s = if is_space c && head_is_space s then 32 ∷ [] else c ∷ []

squeeze_from : Bool → Text → Text
squeeze_from run [] = []
squeeze_from run (c ∷ s) =
    squeezed_unit run c s ++ squeeze_from (is_space c && (run || head_is_space s)) s

-- `s.replace(/\s{2,}/g, " ")`
unfoldable pub squeeze : Text → Text
unfolding squeeze_from
squeeze s = squeeze_from false s

abbrev head_in : (ℕ → Bool) → Text → Bool
head_in p [] = false
head_in p (c ∷ s) = p c

-- `s.replace(/\s+([…])/g, "$1")` for the units of a class that holds no white space.
unfoldable pub tighten : (ℕ → Bool) → Text → Text
tighten p [] = []
tighten p (c ∷ s) = (if is_space c && head_in p (trim_start s) then [] else c ∷ []) ++ tighten p s

-- `s.includes(t)`
unfoldable pub contains : Text → Text → Bool
contains t [] = is_empty t
contains t (c ∷ s) = starts_with t (c ∷ s) || contains t s

-- `s.replace(t, "")` for a text that is not empty: its first occurrence goes.
unfoldable pub remove_first : Text → Text → Text
remove_first t [] = []
remove_first t (c ∷ s) =
    let rest = c ∷ remove_first t s in
    if starts_with t (c ∷ s) then drop (length t) (c ∷ s) else rest

abbrev add_unit : ℕ → List Text → List Text
add_unit c [] = (c ∷ []) ∷ []
add_unit c (w ∷ ws) = (c ∷ w) ∷ ws

-- `s.split(/\s+/)`: runs of white space separate, also at the ends.
unfoldable pub split_space : Text → List Text
split_space [] = [] ∷ []
split_space (c ∷ s) =
    let rest = split_space s in
    if is_space c then (if head_is_space s then rest else [] ∷ rest) else add_unit c rest

-- `xs.filter(Boolean)`
abbrev pub not_empty : List Text → List Text
not_empty ws = keep (λ w. not (is_empty w)) ws

-- `[...new Set(xs)]`, in the order in which the texts come first.
abbrev nub_from : List Text → List Text → List Text
nub_from seen [] = []
nub_from seen (w ∷ ws) =
    let rest = nub_from (w ∷ seen) ws in
    let same_rest = nub_from seen ws in if has_text w seen then same_rest else w ∷ rest

unfoldable pub nub : List Text → List Text
nub ws = nub_from [] ws

digits_from : ℕ → ℕ → Text → Text
digits_from zero n acc = acc
digits_from (suc fuel) n acc =
    let here = (b'0' + n % 10) ∷ acc in
    let rest = digits_from fuel (n / 10) here in if n / 10 == 0 then here else rest

-- `String(n)` of a whole number: a number has no more digits than its value and one.
unfoldable pub show_number : ℕ → Text
unfolding digits_from
show_number n = digits_from (suc n) n []
