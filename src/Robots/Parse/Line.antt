-- ===== src/Robots/Parse/Line.antt =====
-- The pattern of a line, `^([a-zA-Z-]+)\s*:\s*(.*)$`.
use geo_readiness.Common.{
  ℕ, Bool, Option, none, some, [], ◌∷◌, ◌&&◌, ◌||◌, leb, ◌==◌, if◌then◌else◌, any,
}
use geo_readiness.Common.Text.{Text, is_empty, trim_start}

pub record Field : Type 0 where
  pub name : Text
  pub value : Text

-- `[a-zA-Z-]`
abbrev pub is_name_unit : ℕ → Bool
is_name_unit c = (leb b'a' c && leb c b'z') || (leb b'A' c && leb c b'Z') || c == b'-'

abbrev pub name_of : Text → Text
name_of [] = []
name_of (c ∷ s) = if is_name_unit c then c ∷ name_of s else []

abbrev pub after_name : Text → Text
after_name [] = []
after_name (c ∷ s) = if is_name_unit c then after_name s else c ∷ s

-- The characters that `.` does not match.
abbrev pub is_line_end : ℕ → Bool
is_line_end c = c == 10 || c == 13 || c == 0x2028 || c == 0x2029

-- `(.*)$`
abbrev pub field_of : Text → Text → Option Field
field_of name value =
    if is_empty name || any is_line_end value
    then none
    else some (record { name = name; value = value })

-- `:\s*(.*)$`, behind the name and the white space after it.
abbrev pub behind_name : Text → Text → Option Field
behind_name name [] = none
behind_name name (c ∷ s) = if c == b':' then field_of name (trim_start s) else none

unfoldable pub read_line : Text → Option Field
read_line line = behind_name (name_of line) (trim_start (after_name line))
