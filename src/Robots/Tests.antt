-- ===== src/Robots/Tests.antt =====
-- The checker of robots.txt at concrete inputs.
use geo_readiness.Common.{
  ℕ, zero, suc, ◌+◌, ◌≤◌, ◌≡◌, ◌↔◌, refl, Bool, true, false, none, some, List, [], ◌∷◌, ◌++◌, not,
  any, length, All, map, arith,
}
use geo_readiness.Common.Text.{Text, codes, lower, has_text, trim, split_on, split_lines, before}
use geo_readiness.Common.Patterns.{is_dotted_quad, to_number}
use geo_readiness.Content.Crawlers.{allow_root, disallow_root, robots_snippet}
use geo_readiness.Scans.Domain.{
  normalize_domain, normalize_text, check_host, is_rejected, strip_point,
}
use geo_readiness.Robots.Address.{
  Quad, octet, parse_ipv4, judge, quad_is_public, ipv4_is_public, is_public_address, judge_text,
  mapped_part, plain_ipv6_is_public, ipv6_is_public,
}
use geo_readiness.Robots.Address.Blocks.{address, in_block, reserved, quad_is_public-eq-not-any}
use geo_readiness.Robots.Address.Gaps.{is_public_address-hex_mapped}
use geo_readiness.Robots.Parse.{
  RobotsRule, RobotsGroup, allowed, blocked, MatchedBy, parse_robots, parse_from, parse_line,
  field_line, agent_line, add_agent, rule_line, root_verdict, pick_group, listing, governs_root,
  has_path_restrictions,
}
use geo_readiness.Robots.Parse.Line.{read_line}
use geo_readiness.Robots.Parse.Judge.{Decides, Blocks, root_verdict-blocked_iff}
use geo_readiness.Robots.Parse.Rules.{all_rules, rules_among, meaning, parse_robots-all_rules}
use geo_readiness.Robots.Parse.SnippetVerdict.{snippet_verdict, root_verdict-robots_snippet}
use geo_readiness.Robots.Fetch.{
  fetched, failed, read, Reply, response, Network, fetch_robots, fetch_host, fetch_from, answer,
  redirect_target, conclude, declared_length, resolves_publicly, max_redirects, private_host,
  robots_url,
}
use geo_readiness.Robots.Fetch.Result.{IsSound, fetch_robots-IsSound}
use geo_readiness.Robots.Fetch.Hops.{fetch_from-ends}
use geo_readiness.Robots.Fetch.Trace.{Approved, fetch_robots-Approved}

addresses : Unit {0}
unfolding is_public_address judge_text ipv4_is_public parse_ipv4 octet judge quad_is_public
    ipv6_is_public mapped_part plain_ipv6_is_public is_dotted_quad to_number trim lower split_on
addresses = tt

address_tests :
    (is_public_address (codes "8.8.8.8") ≡ true)
    × (is_public_address (codes "169.254.169.254") ≡ false)
    × (is_public_address (codes "::ffff:10.0.0.1") ≡ false)
    × (is_public_address (codes " 2606:4700::1111 ") ≡ true)
    × (is_public_address (codes "FE80::1") ≡ false)
    × (is_public_address (codes "not an address") ≡ false)
    × (is_public_address (codes "8...") ≡ true)
    × (is_public_address (codes "::ffff:7f00:1") ≡ true)
unfolding addresses
address_tests = (refl, refl, refl, refl, refl, refl, refl, refl)

number_tests :
    (to_number (codes " 12 ") ≡ some 12)
    × (to_number (codes "") ≡ some 0)
    × (to_number (codes "0x1F") ≡ some 31)
    × (to_number (codes "2e1") ≡ some 20)
    × (to_number (codes "20e-1") ≡ some 2)
    × (to_number (codes "25e-1") ≡ none)
    × (to_number (codes "-3") ≡ none)
    × (to_number (codes "-0") ≡ some 0)
    × (to_number (codes "1a") ≡ none)
unfolding addresses
number_tests = (refl, refl, refl, refl, refl, refl, refl, refl, refl)

abbrev metadata_quad : Quad
metadata_quad = record { first = 169; second = 254; third = 169; fourth = 254 }

quad_is_public-eq-not-any_example :
    quad_is_public metadata_quad ≡ not (any (in_block (address metadata_quad)) reserved)
quad_is_public-eq-not-any_example = quad_is_public-eq-not-any metadata_quad (omega arith)

is_public_address-hex_mapped_example : is_public_address (codes "::ffff:" ++ codes "7f00:1") ≡ true
is_public_address-hex_mapped_example = is_public_address-hex_mapped (codes "7f00:1") (ground arith)

parser : Unit {0}
unfolding parse_robots parse_from parse_line field_line agent_line add_agent rule_line root_verdict
    pick_group listing governs_root read_line trim lower split_lines before has_path_restrictions
    robots_snippet
parser = tt

abbrev line_feed : Text
line_feed = 10 ∷ []

abbrev sample : Text
sample =
    codes "Disallow: /x"
    ++ line_feed
    ++ codes "User-Agent: GPTBot # ours"
    ++ line_feed
    ++ codes "user-agent:CCBot"
    ++ 13 ∷ line_feed
    ++ codes "Disallow: /"
    ++ line_feed
    ++ codes "Sitemap: https://a.example/s.xml"
    ++ line_feed
    ++ codes "User-agent: *"
    ++ line_feed
    ++ codes "Disallow:"

abbrev rule : Bool → Text → RobotsRule
rule allow path = record { allow = allow; path = path }

abbrev group : List Text → List RobotsRule → RobotsGroup
group agents rules = record { agents = agents; rules = rules }

parse_robots-sample : parse_robots sample ≡ record {
  groups =
      group (codes "gptbot" ∷ codes "ccbot" ∷ []) (rule false (codes "/") ∷ [])
      ∷ group (codes "*" ∷ []) (rule false [] ∷ [])
      ∷ [];
  sitemaps = codes "https://a.example/s.xml" ∷ [];
}
unfolding parser
parse_robots-sample = refl

verdict_tests :
    ((root_verdict (parse_robots sample) (codes "GPTBot")).verdict ≡ blocked)
    × ((root_verdict (parse_robots sample) (codes "Claude-User")).verdict ≡ allowed)
    × ((root_verdict (parse_robots sample) (codes "Claude-User")).matched_by ≡ MatchedBy.wildcard)
unfolding parser
verdict_tests = (refl, refl, refl)

parse_robots-all_rules_example :
    all_rules (parse_robots sample).groups ≡ rules_among false (map meaning (split_lines sample))
parse_robots-all_rules_example = parse_robots-all_rules sample

root_verdict-blocked_iff_example :
    ((root_verdict (parse_robots sample) (codes "GPTBot")).verdict ≡ blocked)
    ↔ ((g : RobotsGroup) × Decides (parse_robots sample).groups (codes "GPTBot") g × Blocks g)
root_verdict-blocked_iff_example = root_verdict-blocked_iff (parse_robots sample) (codes "GPTBot")

abbrev two_tokens : List Text
two_tokens = codes "GPTBot" ∷ codes "CCBot" ∷ []

root_verdict-robots_snippet_example :
    (root_verdict (parse_robots (robots_snippet two_tokens disallow_root)) (codes "ccbot")).verdict
    ≡ snippet_verdict disallow_root (has_text (lower (codes "ccbot")) (map lower two_tokens))
root_verdict-robots_snippet_example =
    root_verdict-robots_snippet disallow_root two_tokens (codes "ccbot") (ground arith)

snippet_tests :
    ((root_verdict (parse_robots (robots_snippet two_tokens disallow_root)) (codes "ccbot")).verdict
      ≡ blocked)
    × ((root_verdict
          (parse_robots (robots_snippet two_tokens disallow_root))
          (codes "Applebot")).verdict
        ≡ allowed)
    × ((root_verdict (parse_robots (robots_snippet two_tokens allow_root)) (codes "ccbot")).verdict
        ≡ allowed)
unfolding parser
snippet_tests = (refl, refl, refl)

-- A site that redirects to its www name once and then answers.
abbrev moved_to : Text
moved_to = codes "https://www.a.example/robots.txt"

abbrev reply_at : ℕ → Reply
reply_at zero =
    response
      (record { status = 301; location = some moved_to; content_length = none; body = read [] })
reply_at (suc hop) = response (record {
  status = 200;
  location = none;
  content_length = some (codes "14");
  body = read (codes "User-agent: *");
})

abbrev site : Network
site = record {
  url_hostname = λ url. none;
  lookup = λ hop host. some (codes "93.184.216.34" ∷ []);
  fetch = λ hop url. reply_at hop;
  resolve_url = λ location base.
      some
        (record { protocol = codes "https:"; hostname = codes "www.a.example"; href = location });
}

-- The same site, which redirects at every hop.
abbrev moving_site : Network
moving_site = record site { fetch = λ hop url. reply_at zero }

-- The same site, on a private address.
abbrev private_site : Network
private_site = record site { lookup = λ hop host. some (codes "10.0.0.1" ∷ []) }

fetches : Unit {0}
unfolding addresses fetch_robots fetch_host fetch_from answer redirect_target conclude
    declared_length resolves_publicly before normalize_domain normalize_text check_host is_rejected
    strip_point
fetches = tt

fetch_tests :
    (fetch_robots site (codes "A.example/x") ≡ record {
      requests = robots_url (codes "a.example") ∷ moved_to ∷ [];
      result = fetched 200 (codes "User-agent: *") moved_to;
    })
    × (fetch_robots private_site (codes "a.example")
        ≡ record { requests = []; result = failed private_host })
    × (length (fetch_robots moving_site (codes "a.example")).requests ≡ 3)
unfolding fetches
fetch_tests = (refl, refl, refl)

fetch_robots-IsSound_example : IsSound (fetch_robots site (codes "a.example")).result
fetch_robots-IsSound_example = fetch_robots-IsSound site (codes "a.example")

fetch_robots-Approved_example : All (Approved site) (fetch_robots site (codes "a.example")).requests
fetch_robots-Approved_example = fetch_robots-Approved site (codes "a.example")

fetch_from-ends_example :
    (fetch_from moving_site 9 0 (robots_url (codes "a.example"))
      ≡ fetch_from moving_site (max_redirects + 1) 0 (robots_url (codes "a.example")))
    × (length (fetch_from moving_site 9 0 (robots_url (codes "a.example"))).requests
        ≤ max_redirects + 1)
fetch_from-ends_example =
    fetch_from-ends moving_site 9 (robots_url (codes "a.example")) (omega arith)
