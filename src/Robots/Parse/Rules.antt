-- ===== src/Robots/Parse/Rules.antt =====
-- No rule is lost, repeated or moved by the grouping of the lines.
use geo_readiness.Common.{
  ◌≡◌, refl, Bool, true, false, Option, none, some, List, [], ◌∷◌, ◌++◌, if◌then◌else◌, arith, map,
  is_some, Bool-cases, ap, sym, ◌∙◌, inl, inr, append_assoc, append-nil, ◌≡⟨◌⟩◌, ◌∎,
}
use geo_readiness.Common.Text.{Text, codes, lower, text_eq, trim, before, is_empty, split_lines}
use geo_readiness.Robots.Parse.{
  RobotsRule, RobotsGroup, State, start, opened, add_agent, agent_line, rule_line, field_line,
  apply_field, parse_line, parse_from, parse_robots, finish,
}
use geo_readiness.Robots.Parse.Line.{Field, read_line}

-- What a line means on its own.
pub data Meaning : Type 0 where
  user_agent : Meaning
  rule : RobotsRule → Meaning
  other : Meaning

abbrev field_meaning : Text → Text → Meaning
field_meaning field value =
    if text_eq field (codes "user-agent")
    then user_agent
    else if text_eq field (codes "sitemap")
    then other
    else if text_eq field (codes "allow")
    then rule (record { allow = true; path = value })
    else if text_eq field (codes "disallow")
    then rule (record { allow = false; path = value })
    else other

abbrev pub meaning : Text → Meaning
meaning raw = elim (read_line (trim (before b'#' raw))) [
  | none ↦ other
  | some f ↦ field_meaning (lower f.name) (trim f.value)
]

-- The rules among the lines, in order; `seen` says whether a user-agent line came before.
abbrev pub rules_among : Bool → List Meaning → List RobotsRule
rules_among seen [] = []
rules_among seen (user_agent ∷ ms) = rules_among true ms
rules_among seen (rule r ∷ ms) = if seen then r ∷ rules_among seen ms else rules_among seen ms
rules_among seen (other ∷ ms) = rules_among seen ms

abbrev pub all_rules : List RobotsGroup → List RobotsRule
all_rules [] = []
all_rules (g ∷ gs) = g.rules ++ all_rules gs

all_rules-append : (gs hs : List RobotsGroup) → all_rules (gs ++ hs) ≡ all_rules gs ++ all_rules hs
all_rules-append [] hs = refl
all_rules-append (g ∷ gs) hs = simp (all_rules-append gs hs, append_assoc)

-- The rules of the group that is open.
abbrev open_rules : Option RobotsGroup → List RobotsRule
open_rules none = []
open_rules (some g) = g.rules

abbrev rules_in : State → List RobotsRule
rules_in st = all_rules st.closed ++ open_rules st.current

rules_in-finish : (st : State) → all_rules (finish st).groups ≡ rules_in st
rules_in-finish st =
    all_rules-append st.closed (opened st.current)
    ∙ ap (λ rs. all_rules st.closed ++ rs) (go st.current)
  where
    go : (c : Option RobotsGroup) → all_rules (opened c) ≡ open_rules c
    go none = refl
    go (some g) = append-nil g.rules

abbrev seen_in : State → Bool
seen_in st = is_some st.current

abbrev seen_after : Bool → Meaning → Bool
seen_after seen user_agent = true
seen_after seen _ = seen

abbrev emitted : Bool → Meaning → List RobotsRule
emitted seen user_agent = []
emitted seen (rule r) = if seen then r ∷ [] else []
emitted seen other = []

rules_among-cons :
    (seen : Bool) (m : Meaning) (ms : List Meaning)
    → rules_among seen (m ∷ ms) ≡ emitted seen m ++ rules_among (seen_after seen m) ms
rules_among-cons true user_agent ms = refl
rules_among-cons true (rule r) ms = refl
rules_among-cons true other ms = refl
rules_among-cons false user_agent ms = refl
rules_among-cons false (rule r) ms = refl
rules_among-cons false other ms = refl

-- What one line does to the rules: it adds what it emits at the end.
abbrev Adds : State → Meaning → State → Type 0
Adds st m st' =
    (rules_in st' ≡ rules_in st ++ emitted (seen_in st) m)
    × (seen_in st' ≡ seen_after (seen_in st) m)

add_agent-rules : (value : Text) (g : RobotsGroup) → (add_agent value g).rules ≡ g.rules
unfolding add_agent
add_agent-rules value g = ground arith

-- A state with its variables spelled out.
abbrev with_current : State → Option RobotsGroup → State
with_current st c = record st { current = c }

agent_line-Adds :
    (value : Text) (c : Option RobotsGroup) (st : State)
    → Adds (with_current st c) user_agent (agent_line value c (with_current st c))
unfolding agent_line
agent_line-Adds value none st =
    (rw (add_agent-rules value (record { agents = []; rules = [] })) (simp append-nil), refl)
agent_line-Adds value (some g) st = elim (Bool-cases st.last_was_agent) [
  | inl joined ↦ rw joined (rw (add_agent-rules value g) (simp append-nil), refl)
  | inr fresh ↦ rw fresh (
    rw (add_agent-rules value (record { agents = []; rules = [] }))
        (simp (all_rules-append, append-nil)),
    refl,
  )
]

rule_line-Adds :
    (allow : Bool) (value : Text) (c : Option RobotsGroup) (st : State)
    → Adds
        (with_current st c)
        (rule (record { allow = allow; path = value }))
        (rule_line allow value c (with_current st c))
unfolding rule_line
rule_line-Adds allow value none st = (simp append-nil, refl)
rule_line-Adds allow value (some g) st = (simp append_assoc, refl)

other-Adds : (st : State) → Adds st other st
other-Adds st = (sym (append-nil _), refl)

sitemap-Adds :
    (value : Text) (st : State)
    → Adds st other
        (if is_empty value then st else record st { sitemaps = st.sitemaps ++ value ∷ [] })
sitemap-Adds [] st = other-Adds st
sitemap-Adds (c ∷ value) st = (sym (append-nil _), refl)

field_line-Adds :
    (field value : Text) (st : State)
    → Adds st (field_meaning field value) (field_line field value st)
unfolding field_line
field_line-Adds field value st = elim (Bool-cases (text_eq field (codes "user-agent"))) [
  | inl a ↦ rw a (agent_line-Adds value st.current st)
  | inr a ↦ rw a (elim (Bool-cases (text_eq field (codes "sitemap"))) [
    | inl b ↦ rw b (sitemap-Adds value st)
    | inr b ↦ rw b (elim (Bool-cases (text_eq field (codes "allow"))) [
      | inl c ↦ rw c (rule_line-Adds true value st.current st)
      | inr c ↦ rw c (elim (Bool-cases (text_eq field (codes "disallow"))) [
        | inl d ↦ rw d (rule_line-Adds false value st.current st)
        | inr d ↦ rw d (other-Adds st)
      ])
    ])
  ])
]

parse_line-Adds : (st : State) (raw : Text) → Adds st (meaning raw) (parse_line st raw)
unfolding parse_line
parse_line-Adds st raw = go (read_line (trim (before b'#' raw)))
  where
    go :
        (o : Option Field)
        → Adds st
            (elim o [ none ↦ other | some f ↦ field_meaning (lower f.name) (trim f.value) ])
            (apply_field o st)
    go none = other-Adds st
    go (some f) = field_line-Adds (lower f.name) (trim f.value) st

parse_from-rules :
    (st : State) (lines : List Text)
    → rules_in (parse_from st lines) ≡ rules_in st ++ rules_among (seen_in st) (map meaning lines)
unfolding parse_from
parse_from-rules st [] = sym (append-nil _)
parse_from-rules st (raw ∷ lines) =
    let (added, seen) = parse_line-Adds st raw in
    let ms = map meaning lines in
    rules_in (parse_from (parse_line st raw) lines)
    ≡⟨ parse_from-rules (parse_line st raw) lines ⟩
      rules_in (parse_line st raw) ++ rules_among (seen_in (parse_line st raw)) ms
    ≡⟨ (rw (added, seen) (simp append_assoc)) ⟩
      rules_in st
      ++ (emitted (seen_in st) (meaning raw)
          ++ rules_among (seen_after (seen_in st) (meaning raw)) ms)
    ≡⟨ ap (λ rs. rules_in st ++ rs) (sym (rules_among-cons (seen_in st) (meaning raw) ms)) ⟩
      rules_in st ++ rules_among (seen_in st) (meaning raw ∷ ms) ∎

-- The rules of the parsed groups, in order, are the allow and disallow lines behind the first
-- user-agent line, in order.
pub parse_robots-all_rules :
    (text : Text)
    → all_rules (parse_robots text).groups ≡ rules_among false (map meaning (split_lines text))
unfolding parse_robots
parse_robots-all_rules text =
    rules_in-finish (parse_from start (split_lines text))
    ∙ parse_from-rules start (split_lines text)
