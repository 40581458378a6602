-- ===== src/Robots/Parse/Judge.antt =====
-- Which group decides about an agent, and what it decides.
use geo_readiness.Common.{
  ◌≡◌, ◌↔◌, inl, inr, refl, true, false, Option, none, some, List, [], ◌∷◌, ◌++◌, any, ◌∙◌, All,
  Bool-cases, arith, ap,
}
use geo_readiness.Common.Text.{Text, codes, lower, has_text, text_eq_iff}
use geo_readiness.Common.TextLaws.{lower_idem}
use geo_readiness.Robots.Parse.Root.{AnyOf, any_iff, RootRule, is_blocking_iff, is_allowing_iff}
use geo_readiness.Robots.Parse.{
  RobotsGroup, RobotsFile, blocked, pick_group, is_blocking, is_allowing, listing, prefer,
  group_verdict, root_verdict, MatchedBy,
}

-- The verdict does not depend on the capitals of the token.
pub root_verdict-lower :
    (file : RobotsFile) (token : Text) → root_verdict file (lower token) ≡ root_verdict file token
unfolding root_verdict pick_group
root_verdict-lower file token =
    ap (λ t. group_verdict (prefer (listing t file.groups) (listing (codes "*") file.groups)))
      (lower_idem token)

-- The group that lists the token first decides alone: groups behind it, also those for the same
-- token, have no say.
pub root_verdict-first_group :
    (g : RobotsGroup) (others more : List RobotsGroup) (sitemaps : List Text) (token : Text)
    → has_text (lower token) g.agents ≡ true
    → root_verdict (record { groups = g ∷ others; sitemaps = sitemaps }) token
      ≡ root_verdict (record { groups = g ∷ more; sitemaps = sitemaps }) token
unfolding root_verdict pick_group listing
root_verdict-first_group g others more sitemaps token h = rw (h, prefer)

-- The group has a user-agent line for the agent, in small letters.
abbrev pub Lists : Text → RobotsGroup → Type 0
Lists wanted g = AnyOf (λ t. t ≡ wanted) g.agents

has_text-Lists :
    (wanted : Text) (g : RobotsGroup) → (has_text wanted g.agents ≡ true) ↔ Lists wanted g
has_text-Lists wanted g = any_iff (λ t. t ≡ wanted) _ (λ t. text_eq_iff t wanted) g.agents

-- The group lists the agent, and no group ahead of it does.
pub record FirstFor (wanted : Text) (groups : List RobotsGroup) (g : RobotsGroup) : Type 0 where
  pub ahead : List RobotsGroup
  pub behind : List RobotsGroup
  pub is_split : groups ≡ ahead ++ g ∷ behind
  pub is_listed : Lists wanted g
  pub is_first : All (λ h. ¬ Lists wanted h) ahead

abbrev pub NoneFor : Text → List RobotsGroup → Type 0
NoneFor wanted groups = All (λ h. ¬ Lists wanted h) groups

-- The group that decides: the first for the token, or else the first for every agent.
pub data Decides (groups : List RobotsGroup) (token : Text) (g : RobotsGroup) : Type 0 where
  own : FirstFor (lower token) groups g → Decides groups token g
  wild : NoneFor (lower token) groups → FirstFor (codes "*") groups g → Decides groups token g

module _ (wanted : Text) where
  not_listed : (g : RobotsGroup) → has_text wanted g.agents ≡ false → ¬ Lists wanted g
  not_listed g e m = cc (e, (has_text-Lists wanted g).1 m)

  unlisted : (g : RobotsGroup) → ¬ Lists wanted g → has_text wanted g.agents ≡ false
  unlisted g n = elim (Bool-cases (has_text wanted g.agents)) [
    | inl e ↦ absurd (n ((has_text-Lists wanted g).0 e))
    | inr e ↦ e
  ]

  listing-FirstFor :
      (groups : List RobotsGroup) (g : RobotsGroup)
      → listing wanted groups ≡ some g
      → FirstFor wanted groups g
  unfolding listing
  listing-FirstFor [] g h = cc
  listing-FirstFor (x ∷ xs) g h = elim (Bool-cases (has_text wanted x.agents)) [
    | inl e ↦ found e (cc (rw e at h))
    | inr e ↦ further e (listing-FirstFor xs g (rw e at h))
  ]
    where
      found : has_text wanted x.agents ≡ true → x ≡ g → FirstFor wanted (x ∷ xs) g
      found e q = rw (← q) (record {
        ahead = [];
        behind = xs;
        is_split = refl;
        is_listed = (has_text-Lists wanted x).0 e;
        is_first = tt;
      })

      further : has_text wanted x.agents ≡ false → FirstFor wanted xs g → FirstFor wanted (x ∷ xs) g
      further e f = record {
        ahead = x ∷ f.ahead;
        behind = f.behind;
        is_split = ap (λ ys. x ∷ ys) f.is_split;
        is_listed = f.is_listed;
        is_first = (not_listed x e, f.is_first);
      }

  FirstFor-listing :
      (ahead behind : List RobotsGroup) (g : RobotsGroup)
      → Lists wanted g
      → All (λ h. ¬ Lists wanted h) ahead
      → listing wanted (ahead ++ g ∷ behind) ≡ some g
  unfolding listing
  FirstFor-listing [] behind g m n = rw ((has_text-Lists wanted g).1 m) refl
  FirstFor-listing (x ∷ ahead) behind g m (p, n) =
      rw (unlisted x p, FirstFor-listing ahead behind g m n) refl

  listing-NoneFor :
      (groups : List RobotsGroup) → listing wanted groups ≡ none → NoneFor wanted groups
  unfolding listing
  listing-NoneFor [] h = tt
  listing-NoneFor (x ∷ xs) h = elim (Bool-cases (has_text wanted x.agents)) [
    | inl e ↦ cc (rw e at h)
    | inr e ↦ (not_listed x e, listing-NoneFor xs (rw e at h))
  ]

  NoneFor-listing :
      (groups : List RobotsGroup) → NoneFor wanted groups → listing wanted groups ≡ none
  unfolding listing
  NoneFor-listing [] n = refl
  NoneFor-listing (x ∷ xs) (p, n) = rw (unlisted x p, NoneFor-listing xs n) refl

listing-cases :
    (file : RobotsFile) (token : Text) (o s : Option RobotsGroup)
    → listing (lower token) file.groups ≡ o
    → listing (codes "*") file.groups ≡ s
    → (g : RobotsGroup) → (prefer o s).0 ≡ some g
    → Decides file.groups token g
listing-cases file token (some x) s e f g q =
    own (listing-FirstFor (lower token) file.groups g (e ∙ q))
listing-cases file token none (some x) e f g q =
    wild (listing-NoneFor (lower token) file.groups e)
      (listing-FirstFor (codes "*") file.groups g (f ∙ q))
listing-cases file token none none e f g q = cc

pick_group-own :
    (groups : List RobotsGroup) (token : Text) (g : RobotsGroup)
    → FirstFor (lower token) groups g
    → (pick_group groups token).0 ≡ some g
unfolding pick_group
pick_group-own groups token g f =
    rw (f.is_split, FirstFor-listing (lower token) f.ahead f.behind g f.is_listed f.is_first) refl

pick_group-wild :
    (groups : List RobotsGroup) (token : Text) (g : RobotsGroup)
    → NoneFor (lower token) groups
    → FirstFor (codes "*") groups g
    → (pick_group groups token).0 ≡ some g
unfolding pick_group
pick_group-wild groups token g n f = rw (NoneFor-listing (lower token) groups n, starred) refl
  where
    starred : listing (codes "*") groups ≡ some g
    starred = rw f.is_split (FirstFor-listing (codes "*") f.ahead f.behind g f.is_listed f.is_first)

pick_group-Decides :
    (groups : List RobotsGroup) (token : Text) (g : RobotsGroup)
    → Decides groups token g
    → (pick_group groups token).0 ≡ some g
pick_group-Decides groups token g (own f) = pick_group-own groups token g f
pick_group-Decides groups token g (wild n f) = pick_group-wild groups token g n f

-- Some rule of the group forbids the whole site, and none allows it.
abbrev pub Blocks : RobotsGroup → Type 0
Blocks g = AnyOf (RootRule false) g.rules × ¬ AnyOf (RootRule true) g.rules

blocked-Blocks :
    (g : RobotsGroup) (how : MatchedBy) → (group_verdict (some g, how)).verdict ≡ blocked → Blocks g
blocked-Blocks g how h = (
  (any_iff (RootRule false) is_blocking is_blocking_iff g.rules).0 (ground arith),
  λ m. allowed_too ((any_iff (RootRule true) is_allowing is_allowing_iff g.rules).1 m),
)
  where
    allowed_too : ¬ (any is_allowing g.rules ≡ true)
    allowed_too e = ground arith

Blocks-blocked :
    (g : RobotsGroup) (how : MatchedBy) → Blocks g → (group_verdict (some g, how)).verdict ≡ blocked
Blocks-blocked g how (b, n) =
    judge ((any_iff (RootRule false) is_blocking is_blocking_iff g.rules).1 b)
      (λ e. n ((any_iff (RootRule true) is_allowing is_allowing_iff g.rules).0 e))
  where
    judge :
        any is_blocking g.rules ≡ true
        → ¬ (any is_allowing g.rules ≡ true)
        → (group_verdict (some g, how)).verdict ≡ blocked
    judge e f = ground arith

blocked-group :
    (file : RobotsFile) (token : Text) (p : Option RobotsGroup × MatchedBy)
    → pick_group file.groups token ≡ p
    → (group_verdict p).verdict ≡ blocked
    → (g : RobotsGroup) × Decides file.groups token g × Blocks g
unfolding pick_group
blocked-group file token (none, how) e h = cc
blocked-group file token (some g, how) e h =
    (g, listing-cases file token _ _ refl refl g (ap (λ q. q.0) e), blocked-Blocks g how h)

group-blocked :
    (file : RobotsFile) (token : Text) (g : RobotsGroup) (p : Option RobotsGroup × MatchedBy)
    → p.0 ≡ some g
    → Blocks g
    → (group_verdict p).verdict ≡ blocked
group-blocked file token g (o, how) e b = rw e (Blocks-blocked g how b)

-- The root is blocked exactly when the deciding group has a disallow rule and no allow rule whose
-- path, trimmed, is "/", "/*" or "*". The deciding group is the first of the file that lists the
-- token in small letters, and where no group does, the first that lists "*".
pub root_verdict-blocked_iff :
    (file : RobotsFile) (token : Text)
    → ((root_verdict file token).verdict ≡ blocked)
      ↔ ((g : RobotsGroup) × Decides file.groups token g × Blocks g)
unfolding root_verdict
root_verdict-blocked_iff file token = (
  blocked-group file token (pick_group file.groups token) refl,
  λ (g, d, b).
      group-blocked file token g (pick_group file.groups token)
        (pick_group-Decides file.groups token g d) b,
)
