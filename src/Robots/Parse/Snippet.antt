-- ===== src/Robots/Parse/Snippet.antt =====
-- How the parser reads the two lines of a snippet's entry.
use geo_readiness.Common.{
  ℕ, ◌≡◌, refl, true, false, Option, none, some, [], ◌∷◌, ◌++◌, any, arith, ap, ◌∙◌, append-nil,
  All, All-append, ◌==◌,
}
use geo_readiness.Common.Text.{Text, codes, lower, trim, before, is_space}
use geo_readiness.Common.TextLaws.{IsSolid, trim_end-append, before-none, trim-IsSolid}
use geo_readiness.Content.Crawlers.{SnippetRule, allow_root, disallow_root, rule_text}
use geo_readiness.Robots.Parse.{
  RobotsRule, RobotsGroup, State, opened, add_agent, agent_line, rule_line, field_line, apply_field,
  parse_line,
}
use geo_readiness.Robots.Parse.Line.{read_line, is_name_unit, is_line_end}

-- The tokens of crawlers: letters and dashes, at least one.
abbrev pub IsToken : Text → Type 0
IsToken [] = ⊥
IsToken (c ∷ s) = All (λ a. is_name_unit a ≡ true) (c ∷ s)

abbrev pub agent_text : Text → Text
agent_text t = codes "User-agent: " ++ t

abbrev pub NoBreak : Text → Type 0
NoBreak s = All (λ a. ((a == 10) ≡ false) × ((a == 13) ≡ false)) s

name-NoBreak : (s : Text) → All (λ a. is_name_unit a ≡ true) s → NoBreak s
name-NoBreak [] h = tt
name-NoBreak (c ∷ s) (p, h) = ((ground arith, ground arith), name-NoBreak s h)

name-no_hash : (s : Text) → All (λ a. is_name_unit a ≡ true) s → All (λ a. (a == b'#') ≡ false) s
name-no_hash [] h = tt
name-no_hash (c ∷ s) (p, h) = (ground arith, name-no_hash s h)

name-IsSolid : (s : Text) → All (λ a. is_name_unit a ≡ true) s → IsSolid s
name-IsSolid [] h = tt
name-IsSolid (c ∷ s) (p, h) = (ground arith, name-IsSolid s h)

name-not_end : (s : Text) → All (λ a. is_name_unit a ≡ true) s → any is_line_end s ≡ false
name-not_end [] h = refl
name-not_end (c ∷ s) (p, h) = ground (arith, name-not_end s h)

pub agent_text-NoBreak : (t : Text) → All (λ a. is_name_unit a ≡ true) t → NoBreak (agent_text t)
agent_text-NoBreak t h =
    All-append (λ a. ((a == 10) ≡ false) × ((a == 13) ≡ false)) (codes "User-agent: ") t
      (ground arith) (name-NoBreak t h)

agent_text-no_hash :
    (t : Text) → All (λ a. is_name_unit a ≡ true) t → All (λ a. (a == b'#') ≡ false) (agent_text t)
agent_text-no_hash t h =
    All-append (λ a. (a == b'#') ≡ false) (codes "User-agent: ") t (ground arith) (name-no_hash t h)

head_solid : (c : ℕ) → is_name_unit c ≡ true → is_space c ≡ false
head_solid c h = ground arith

read_agent :
    (t : Text)
    → IsToken t
    → read_line (trim (before b'#' (agent_text t)))
      ≡ some (record { name = codes "User-agent"; value = t })
unfolding trim read_line
read_agent [] h = absurd h
read_agent (c ∷ t) h = rw (before-none b'#' (agent_text (c ∷ t)) (agent_text-no_hash (c ∷ t) h)) (
    rw (trim_end-append (codes "User-agent: ") c t (name-IsSolid (c ∷ t) h))
      (rw (head_solid c h.0) (rw (name-not_end (c ∷ t) h))))

abbrev pub rule_of : SnippetRule → RobotsRule
rule_of allow_root = record { allow = true; path = codes "/" }
rule_of disallow_root = record { allow = false; path = codes "/" }

abbrev pub group_of : SnippetRule → Text → RobotsGroup
group_of r t = record { agents = lower t ∷ []; rules = rule_of r ∷ [] }

-- The state behind one entry.
abbrev pub behind : State → SnippetRule → Text → State
behind st r t = record {
  closed = st.closed ++ opened st.current;
  current = some (group_of r t);
  sitemaps = st.sitemaps;
  last_was_agent = false;
}

rule_meaning :
    (r : SnippetRule)
    → read_line (trim (before b'#' (rule_text r)))
      ≡ some (record { name = before b':' (rule_text r); value = codes "/" })
unfolding trim before read_line
rule_meaning allow_root = refl
rule_meaning disallow_root = refl

pub parse_empty_line : (st : State) → parse_line st [] ≡ st
unfolding parse_line before trim read_line
parse_empty_line st = refl

-- The state behind a user-agent line that opens a group.
abbrev pub agent_read : State → Text → State
agent_read st t = record {
  closed = st.closed ++ opened st.current;
  current = some (record { agents = lower t ∷ []; rules = [] });
  sitemaps = st.sitemaps;
  last_was_agent = true;
}

agent_line-opens :
    (c : ℕ) (t : Text) (st : State) (o : Option RobotsGroup)
    → st.last_was_agent ≡ false
    → agent_line (c ∷ t) o (record st { current = o })
      ≡ agent_read (record st { current = o }) (c ∷ t)
unfolding agent_line add_agent
agent_line-opens c t st none h = simp append-nil
agent_line-opens c t st (some g) h = rw h

trim-token : (t : Text) → IsToken t → trim t ≡ t
trim-token [] h = absurd h
trim-token (c ∷ t) h = trim-IsSolid (c ∷ t) (name-IsSolid (c ∷ t) h)

pub parse_agent_line :
    (st : State) (t : Text)
    → IsToken t
    → st.last_was_agent ≡ false
    → parse_line st (agent_text t) ≡ agent_read st t
unfolding parse_line field_line lower
parse_agent_line st [] h e = absurd h
parse_agent_line st (c ∷ t) h e =
    ap (λ o. apply_field o st) (read_agent (c ∷ t) h)
    ∙ ap (λ v. field_line (codes "user-agent") v st) (trim-token (c ∷ t) h)
    ∙ agent_line-opens c t st st.current e

-- The rule line of the entry goes into the group.
pub parse_rule_line :
    (st : State) (t : Text) (r : SnippetRule)
    → parse_line (agent_read st t) (rule_text r) ≡ behind st r t
unfolding parse_line field_line rule_line lower trim before read_line
parse_rule_line st t allow_root = refl
parse_rule_line st t disallow_root = refl

pub rule_text-NoBreak : (r : SnippetRule) → NoBreak (rule_text r)
rule_text-NoBreak allow_root = ground arith
rule_text-NoBreak disallow_root = ground arith
