-- ===== src/Scans/Domain/Laws.antt =====
-- What an accepted domain looks like, and what the tests let through.
use geo_readiness.Common.{
  ◌≡◌, ◌≢◌, refl, ap, ◌∙◌, true, false, Option, none, some, [], ◌∷◌, ◌==◌, every, All, arith,
  Bool-cases, and_parts, inl, inr,
}
use geo_readiness.Common.Text.{
  Text, codes, text_eq, text_eq_iff, is_empty, ends_with, has_unit, trim, lower, before,
}
use geo_readiness.Common.TextLaws.{IsSolid, IsLower, trim-IsSolid, lower-IsLower, before-none}
use geo_readiness.Common.Patterns.{is_dotted_quad}
use geo_readiness.Errors.{ok}
use geo_readiness.Scans.Domain.{
  has_scheme, strip_point, is_host_unit, is_rejected, check_host, check_hostname, normalize_text,
  normalize_domain,
}

-- What a domain must satisfy to be scanned.
pub record IsPublicName (s : Text) : Type 0 where
  pub charset : All (λ c. is_host_unit c ≡ true) s
  pub nonempty : s ≢ []
  pub dotted : has_unit b'.' s ≡ true
  pub not_local : ends_with (codes ".local") s ≡ false
  pub not_internal : ends_with (codes ".internal") s ≡ false
  pub not_ip : is_dotted_quad s ≡ false

every-All : (s : Text) → every is_host_unit s ≡ true → All (λ c. is_host_unit c ≡ true) s
every-All [] h = tt
every-All (c ∷ s) h =
    let (p, q) = and_parts (is_host_unit c) (every is_host_unit s) h in (p, every-All s q)

pub All-every : (s : Text) → All (λ c. is_host_unit c ≡ true) s → every is_host_unit s ≡ true
All-every [] h = refl
All-every (c ∷ s) (p, h) = rw p (All-every s h)

not-empty : (s : Text) → is_empty s ≡ false → s ≢ []
not-empty [] h = cc
not-empty (c ∷ s) h = cc

accepted-IsPublicName :
    (s : Text) → is_rejected s ≡ false → is_dotted_quad s ≡ false → IsPublicName s
unfolding is_rejected
accepted-IsPublicName s h k = record {
  charset = every-All s (ground arith);
  nonempty = not-empty s (ground arith);
  dotted = ground arith;
  not_local = ground arith;
  not_internal = ground arith;
  not_ip = k;
}

check_host-accepted :
    (x s : Text)
    → check_host x ≡ ok s
    → (is_rejected x ≡ false) × (is_dotted_quad x ≡ false) × (x ≡ s)
unfolding check_host
check_host-accepted x s h = ground arith

check_host-IsPublicName : (x s : Text) → check_host x ≡ ok s → IsPublicName s
check_host-IsPublicName x s h =
    let (good, name, same) = check_host-accepted x s h in
    rw same at (accepted-IsPublicName x good name)

check_hostname-IsPublicName :
    (o : Option Text) (s : Text) → check_hostname o ≡ ok s → IsPublicName s
check_hostname-IsPublicName none s h = cc
check_hostname-IsPublicName (some x) s h = check_host-IsPublicName (strip_point x) s h

-- Whatever the input and the URL parser, an accepted domain has the characters of a host name, a
-- point in it, no local or internal ending, and is no dotted quad.
pub normalize_domain-IsPublicName :
    (url_hostname : Text → Option Text) (input s : Text)
    → normalize_domain url_hostname input ≡ ok s
    → IsPublicName s
unfolding normalize_domain normalize_text
normalize_domain-IsPublicName url_hostname input s h =
    let t = lower (trim input) in
    elim (Bool-cases (is_empty t)) [
      | inl e ↦ cc (rw e at h)
      | inr e ↦ elim (Bool-cases (has_scheme t)) [
        | inl k ↦ check_hostname-IsPublicName (url_hostname t) s (rw (e, k) at h)
        | inr k ↦ check_hostname-IsPublicName (some (before b'/' t)) s (rw (e, k) at h)
      ]
    ]

host-IsSolid : (s : Text) → All (λ c. is_host_unit c ≡ true) s → IsSolid s
host-IsSolid [] h = tt
host-IsSolid (c ∷ s) (p, h) = (ground arith, host-IsSolid s h)

host-IsLower : (s : Text) → All (λ c. is_host_unit c ≡ true) s → IsLower s
host-IsLower [] h = tt
host-IsLower (c ∷ s) (p, h) = (ground arith, host-IsLower s h)

host-no_slash : (s : Text) → All (λ c. is_host_unit c ≡ true) s → All (λ c. (c == b'/') ≡ false) s
host-no_slash [] h = tt
host-no_slash (c ∷ s) (p, h) = (ground arith, host-no_slash s h)

host-no_scheme : (s : Text) → All (λ c. is_host_unit c ≡ true) s → has_scheme s ≡ false
host-no_scheme [] h = refl
host-no_scheme (c ∷ s) (p, h) = ground (arith, host-no_scheme s h)

-- A host text is judged as it stands, but for a last point.
pub normalize_domain-host :
    (url_hostname : Text → Option Text) (s : Text)
    → All (λ c. is_host_unit c ≡ true) s
    → s ≢ []
    → normalize_domain url_hostname s ≡ check_host (strip_point s)
unfolding normalize_domain normalize_text
normalize_domain-host url_hostname [] h ne = absurd (ne refl)
normalize_domain-host url_hostname (c ∷ s) h ne =
    ap (normalize_text url_hostname) (
      ap lower (trim-IsSolid (c ∷ s) (host-IsSolid (c ∷ s) h))
      ∙ lower-IsLower (c ∷ s) (host-IsLower (c ∷ s) h))
    ∙ rw (host-no_scheme (c ∷ s) h) (rw (before-none b'/' (c ∷ s) (host-no_slash (c ∷ s) h)))

pub not_localhost : (s : Text) → has_unit b'.' s ≡ true → text_eq s (codes "localhost") ≡ false
not_localhost s h = elim (Bool-cases (text_eq s (codes "localhost"))) [
  | inl same ↦
      let e : s ≡ codes "localhost" = (text_eq_iff s (codes "localhost")).0 same in
      absurd (no_point (rw e at h))
  | inr other ↦ other
]
  where
    no_point : ¬ (has_unit b'.' (codes "localhost") ≡ true)
    no_point k = cc

is_empty-ne : (s : Text) → s ≢ [] → is_empty s ≡ false
is_empty-ne [] h = absurd (h refl)
is_empty-ne (c ∷ s) h = refl

not_rejected : (s : Text) → IsPublicName s → is_rejected s ≡ false
unfolding is_rejected
not_rejected s p =
    rw (is_empty-ne s p.nonempty, All-every s p.charset, p.dotted)
      (rw (not_localhost s p.dotted, p.not_local, p.not_internal))

-- An accepted domain is left as it is when it is normalized again, unless it still ends in a point.
pub normalize_domain_idem :
    (url_hostname other : Text → Option Text) (input s : Text)
    → normalize_domain url_hostname input ≡ ok s
    → strip_point s ≡ s
    → normalize_domain other s ≡ ok s
unfolding check_host
normalize_domain_idem url_hostname other input s h e =
    let p = normalize_domain-IsPublicName url_hostname input s h in
    normalize_domain-host other s p.charset p.nonempty
    ∙ ap check_host e
    ∙ rw (not_rejected s p) (rw p.not_ip)
