-- ===== src/Robots/Parse/SnippetVerdict.antt =====
-- The copy-paste snippets of `robotsSnippet` mean what they say when the parser reads them.
use geo_readiness.Common.{
  ◌≡◌, refl, Bool, true, false, Option, none, some, List, [], ◌∷◌, ◌++◌, if◌then◌else◌, arith, map,
  Bool-cases, ap, sym, ◌∙◌, inl, inr, append_assoc, append-nil, ◌≡⟨◌⟩◌, ◌∎, All,
}
use geo_readiness.Common.Text.{Text, codes, lower, has_text, text_eq, trim, split_lines, join}
use geo_readiness.Common.TextLaws.{split_lines-cons, split_lines-none}
use geo_readiness.Content.Crawlers.{
  SnippetRule, allow_root, disallow_root, rule_text, snippet_entry, robots_snippet,
}
use geo_readiness.Robots.Parse.{
  RobotsGroup, State, start, opened, parse_line, parse_from, parse_robots, finish, Verdict, allowed,
  blocked, root_verdict, pick_group, listing, prefer, group_verdict, governs_root,
}
use geo_readiness.Robots.Parse.Snippet.{
  IsToken, agent_text, group_of, behind, agent_text-NoBreak, rule_text-NoBreak, parse_agent_line,
  parse_rule_line, parse_empty_line,
}

abbrev entries : SnippetRule → List Text → Text
entries r ts = join (10 ∷ 10 ∷ []) (map (snippet_entry r) ts)

-- The lines of a snippet.
split_entries_last :
    (r : SnippetRule) (t : Text)
    → IsToken t
    → split_lines (snippet_entry r t) ≡ agent_text t ∷ rule_text r ∷ []
split_entries_last r [] h = absurd h
split_entries_last r (c ∷ t) h =
    split_lines-cons (agent_text (c ∷ t)) (rule_text r) (agent_text-NoBreak (c ∷ t) h)
    ∙ ap (λ ls. agent_text (c ∷ t) ∷ ls) (split_lines-none (rule_text r) (rule_text-NoBreak r))

regroup :
    (a b rest : Text) → a ++ 10 ∷ b ++ 10 ∷ 10 ∷ [] ++ rest ≡ a ++ 10 ∷ (b ++ 10 ∷ (10 ∷ rest))
regroup a b rest = simp append_assoc

split_entries_more :
    (r : SnippetRule) (t rest : Text)
    → IsToken t
    → split_lines (snippet_entry r t ++ 10 ∷ 10 ∷ [] ++ rest)
      ≡ agent_text t ∷ rule_text r ∷ [] ∷ split_lines rest
split_entries_more r [] rest h = absurd h
split_entries_more r (c ∷ t) rest h =
    split_lines (snippet_entry r (c ∷ t) ++ 10 ∷ 10 ∷ [] ++ rest)
    ≡⟨ ap split_lines (regroup (agent_text (c ∷ t)) (rule_text r) rest) ⟩
      split_lines (agent_text (c ∷ t) ++ 10 ∷ (rule_text r ++ 10 ∷ (10 ∷ rest)))
    ≡⟨ split_lines-cons (agent_text (c ∷ t)) (rule_text r ++ 10 ∷ (10 ∷ rest))
        (agent_text-NoBreak (c ∷ t) h) ⟩
      agent_text (c ∷ t) ∷ split_lines (rule_text r ++ 10 ∷ (10 ∷ rest))
    ≡⟨ ap (λ ls. agent_text (c ∷ t) ∷ ls)
        (split_lines-cons (rule_text r) (10 ∷ rest) (rule_text-NoBreak r)
          ∙ ap (λ ls. rule_text r ∷ ls) (split_lines-cons [] rest tt)) ⟩
      agent_text (c ∷ t) ∷ rule_text r ∷ [] ∷ split_lines rest ∎

-- The states behind the entries, one after the other.
behind_all : State → SnippetRule → List Text → State
behind_all st r [] = st
behind_all st r (t ∷ ts) = behind_all (behind st r t) r ts

parse_entry :
    (st : State) (t : Text) (r : SnippetRule)
    → IsToken t
    → st.last_was_agent ≡ false
    → parse_line (parse_line st (agent_text t)) (rule_text r) ≡ behind st r t
parse_entry st t r h e =
    ap (λ u. parse_line u (rule_text r)) (parse_agent_line st t h e) ∙ parse_rule_line st t r

parse_entries :
    (st : State) (r : SnippetRule) (ts : List Text)
    → All IsToken ts
    → st.last_was_agent ≡ false
    → parse_from st (split_lines (entries r ts)) ≡ behind_all st r ts
unfolding parse_from behind_all
parse_entries st r [] h e = unfold split_lines in parse_empty_line st
parse_entries st r (t ∷ []) (h, _) e =
    ap (parse_from st) (split_entries_last r t h) ∙ parse_entry st t r h e
parse_entries st r (t ∷ u ∷ ts) (h, hs) e =
    ap (parse_from st) (split_entries_more r t (entries r (u ∷ ts)) h)
    ∙ ap (λ v. parse_from (parse_line v []) (split_lines (entries r (u ∷ ts))))
        (parse_entry st t r h e)
    ∙ ap (λ v. parse_from v (split_lines (entries r (u ∷ ts)))) (parse_empty_line (behind st r t))
    ∙ parse_entries (behind st r t) r (u ∷ ts) hs refl

behind_all-groups :
    (st : State) (r : SnippetRule) (ts : List Text)
    → (finish (behind_all st r ts)).groups ≡ (st.closed ++ opened st.current) ++ map (group_of r) ts
unfolding behind_all
behind_all-groups st r [] = sym (append-nil _)
behind_all-groups st r (t ∷ ts) =
    behind_all-groups (behind st r t) r ts
    ∙ append_assoc (st.closed ++ opened st.current) (group_of r t ∷ []) (map (group_of r) ts)

-- A snippet is read as one group for each token, with the one rule.
pub parse_robots-robots_snippet :
    (r : SnippetRule) (ts : List Text)
    → All IsToken ts
    → (parse_robots (robots_snippet ts r)).groups ≡ map (group_of r) ts
unfolding parse_robots robots_snippet
parse_robots-robots_snippet r ts h =
    ap (λ st. (finish st).groups) (parse_entries start r ts h refl) ∙ behind_all-groups start r ts

listing-group_of-none :
    (w : Text) (r : SnippetRule) (ts : List Text)
    → has_text w (map lower ts) ≡ false
    → listing w (map (group_of r) ts) ≡ none
unfolding listing
listing-group_of-none w r [] h = refl
listing-group_of-none w r (t ∷ ts) h = ground (arith, listing-group_of-none w r ts)

listing-group_of-some :
    (w : Text) (r : SnippetRule) (ts : List Text)
    → has_text w (map lower ts) ≡ true
    → (t : Text) × (listing w (map (group_of r) ts) ≡ some (group_of r t))
unfolding listing
listing-group_of-some w r [] h = cc
listing-group_of-some w r (t ∷ ts) h = elim (Bool-cases (text_eq (lower t) w)) [
  | inl same ↦ (t, rw same)
  | inr other ↦ let (u, e) = listing-group_of-some w r ts (rw other at h) in (u, rw other e)
]

no_star : (ts : List Text) → All IsToken ts → has_text (codes "*") (map lower ts) ≡ false
unfolding lower
no_star [] h = refl
no_star ([] ∷ ts) (h, hs) = absurd h
no_star ((c ∷ t) ∷ ts) (h, hs) = ground (arith, no_star ts hs, h.0)

-- The verdict of a snippet's group.
abbrev pub snippet_verdict : SnippetRule → Bool → Verdict
snippet_verdict allow_root listed = allowed
snippet_verdict disallow_root listed = if listed then blocked else allowed

listed_verdict :
    (r : SnippetRule) (t : Text) (star : Option RobotsGroup)
    → (group_verdict (prefer (some (group_of r t)) star)).verdict ≡ snippet_verdict r true
unfolding governs_root trim
listed_verdict allow_root t star = refl
listed_verdict disallow_root t star = refl

unlisted : (r : SnippetRule) → snippet_verdict r false ≡ allowed
unlisted allow_root = refl
unlisted disallow_root = refl

groups_verdict :
    (r : SnippetRule) (ts : List Text) (w : Text)
    → All IsToken ts
    → (group_verdict (
        prefer
          (listing w (map (group_of r) ts))
          (listing (codes "*") (map (group_of r) ts)))).verdict
      ≡ snippet_verdict r (has_text w (map lower ts))
groups_verdict r ts w h = elim (Bool-cases (has_text w (map lower ts))) [
  | inl listed ↦
      let (t, e) = listing-group_of-some w r ts listed in
      rw (e, listed) (listed_verdict r t (listing (codes "*") (map (group_of r) ts)))
  | inr missing ↦
      rw
        (
          listing-group_of-none w r ts missing,
          listing-group_of-none (codes "*") r ts (no_star ts h),
          missing,
        )
        (sym (unlisted r))
]

-- A snippet of robotsSnippet that disallows the root blocks exactly the agents whose tokens it
-- lists, whatever their capitals, when the parser reads it, and one that allows the root blocks no
-- agent; tokens are made of letters and dashes.
pub root_verdict-robots_snippet :
    (r : SnippetRule) (ts : List Text) (token : Text)
    → All IsToken ts
    → (root_verdict (parse_robots (robots_snippet ts r)) token).verdict
      ≡ snippet_verdict r (has_text (lower token) (map lower ts))
unfolding root_verdict pick_group
root_verdict-robots_snippet r ts token h =
    ap (λ gs. (group_verdict (prefer (listing (lower token) gs) (listing (codes "*") gs))).verdict)
      (parse_robots-robots_snippet r ts h)
    ∙ groups_verdict r ts (lower token) h
