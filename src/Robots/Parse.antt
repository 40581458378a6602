-- ===== src/Robots/Parse.antt =====
-- The parser of robots.txt and its verdicts: apps/web/lib/robots/parse.ts.
pub mod Line
pub mod Root
pub mod Judge
pub mod Rules
pub mod Snippet
pub mod SnippetVerdict
use geo_readiness.Common.{
  Bool, true, false, Option, none, some, List, [], ◌∷◌, ◌++◌, ◌&&◌, ◌||◌, not, if◌then◌else◌, any,
  find?,
}
use geo_readiness.Common.Text.{
  Text, codes, text_eq, is_empty, trim, lower, split_lines, before, has_text,
}
use Line.{Field, read_line}

pub record RobotsRule : Type 0 where
  pub allow : Bool
  pub path : Text

pub record RobotsGroup : Type 0 where
  pub agents : List Text
  pub rules : List RobotsRule

pub record RobotsFile : Type 0 where
  pub groups : List RobotsGroup
  pub sitemaps : List Text

-- The variables of the loop. `current` is always the last element of `groups` in the source, so
-- it is kept apart here: `closed` are the groups before it.
pub record State : Type 0 where
  pub closed : List RobotsGroup
  pub current : Option RobotsGroup
  pub sitemaps : List Text
  pub last_was_agent : Bool

abbrev pub start : State
start = record { closed = []; current = none; sitemaps = []; last_was_agent = false }

abbrev pub opened : Option RobotsGroup → List RobotsGroup
opened none = []
opened (some g) = g ∷ []

abbrev empty_group : RobotsGroup
empty_group = record { agents = []; rules = [] }

-- `if (value) current.agents.push(value.toLowerCase())`
unfoldable pub add_agent : Text → RobotsGroup → RobotsGroup
add_agent value g = if is_empty value then g else record g { agents = g.agents ++ lower value ∷ [] }

-- A user-agent line: it joins the group of the line before it if that was one too.
unfoldable pub agent_line : Text → Option RobotsGroup → State → State
unfolding add_agent
agent_line value none st = record st {
  current = some (add_agent value empty_group);
  last_was_agent = true;
}
agent_line value (some g) st =
    if st.last_was_agent
    then record st { current = some (add_agent value g); last_was_agent = true }
    else record st {
      closed = st.closed ++ g ∷ [];
      current = some (add_agent value empty_group);
      last_was_agent = true;
    }

abbrev add_rule : Bool → Text → RobotsGroup → RobotsGroup
add_rule allow value g = record g { rules = g.rules ++ record { allow = allow; path = value } ∷ [] }

-- An allow or disallow line; before any user-agent line it applies to nothing.
unfoldable pub rule_line : Bool → Text → Option RobotsGroup → State → State
rule_line allow value none st = st
rule_line allow value (some g) st = record st {
  current = some (add_rule allow value g);
  last_was_agent = false;
}

unfoldable pub field_line : Text → Text → State → State
unfolding agent_line rule_line
field_line field value st =
    if text_eq field (codes "user-agent")
    then agent_line value st.current st
    else if text_eq field (codes "sitemap")
    then (if is_empty value then st else record st { sitemaps = st.sitemaps ++ value ∷ [] })
    else if text_eq field (codes "allow")
    then rule_line true value st.current st
    else if text_eq field (codes "disallow")
    then rule_line false value st.current st
    else st

abbrev pub apply_field : Option Field → State → State
apply_field none st = st
apply_field (some f) st = field_line (lower f.name) (trim f.value) st

-- One round of the loop: the comment is cut off, the rest trimmed and matched. An empty line does
-- not match.
unfoldable pub parse_line : State → Text → State
parse_line st raw = apply_field (read_line (trim (before b'#' raw))) st

unfoldable pub parse_from : State → List Text → State
parse_from st [] = st
parse_from st (raw ∷ lines) = parse_from (parse_line st raw) lines

abbrev pub finish : State → RobotsFile
finish st = record { groups = st.closed ++ opened st.current; sitemaps = st.sitemaps }

unfoldable pub parse_robots : Text → RobotsFile
parse_robots text = finish (parse_from start (split_lines text))

pub data MatchedBy : Type 0 where
  agent wildcard default : MatchedBy

pub data Verdict : Type 0 where
  allowed blocked : Verdict

pub record AgentVerdict : Type 0 where
  pub verdict : Verdict
  pub matched_by : MatchedBy
  pub rules : List RobotsRule

-- Does this rule path govern the site root?
unfoldable pub governs_root : Text → Bool
governs_root path =
    let p = trim path in text_eq p (codes "/") || text_eq p (codes "/*") || text_eq p (codes "*")

-- `file.groups.find((g) => g.agents.includes(wanted))`
unfoldable pub listing : Text → List RobotsGroup → Option RobotsGroup
listing wanted groups = find? (λ g. has_text wanted g.agents) groups

abbrev pub prefer : Option RobotsGroup → Option RobotsGroup → Option RobotsGroup × MatchedBy
prefer (some own) star = (some own, agent)
prefer none (some star) = (some star, wildcard)
prefer none none = (none, default)

unfoldable pub pick_group : List RobotsGroup → Text → Option RobotsGroup × MatchedBy
pick_group groups token = prefer (listing (lower token) groups) (listing (codes "*") groups)

-- A disallow rule for the root that is not empty.
abbrev pub is_blocking : RobotsRule → Bool
is_blocking r = not r.allow && not (is_empty r.path) && governs_root r.path

abbrev pub is_allowing : RobotsRule → Bool
is_allowing r = r.allow && governs_root r.path

abbrev pub group_verdict : Option RobotsGroup × MatchedBy → AgentVerdict
group_verdict (none, how) = record { verdict = allowed; matched_by = default; rules = [] }
group_verdict (some g, how) = record {
  verdict = if any is_blocking g.rules && not (any is_allowing g.rules) then blocked else allowed;
  matched_by = how;
  rules = g.rules;
}

-- Whether the token may fetch the site root.
unfoldable pub root_verdict : RobotsFile → Text → AgentVerdict
root_verdict file token = group_verdict (pick_group file.groups token)

unfoldable pub has_path_restrictions : AgentVerdict → Bool
has_path_restrictions v =
    any (λ r. not r.allow && not (is_empty r.path) && not (governs_root r.path)) v.rules
