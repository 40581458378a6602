-- ===== src/Scans/Domain/Points.antt =====
-- A domain that ends in two points passes every test.
use geo_readiness.Common.{
  ℕ, ◌≡◌, ◌≢◌, refl, sym, ap, ◌∙◌, true, false, Option, List, [], ◌∷◌, ◌++◌, ◌==◌, every, All,
  All-append, arith, Bool-cases, inl, inr, append_assoc,
}
use geo_readiness.Common.Text.{
  Text, codes, text_eq, text_eq_iff, is_empty, ends_with, has_unit, split_on,
}
use geo_readiness.Common.Patterns.{is_dotted_quad, is_short_number}
use geo_readiness.Errors.{ok}
use geo_readiness.Scans.Domain.{
  strip_point, is_host_unit, is_rejected, check_host, normalize_domain,
}
use geo_readiness.Scans.Domain.Laws.{All-every, normalize_domain-host, not_localhost}

abbrev pointed : Text → Text
pointed t = t ++ b'.' ∷ []

last-pointed : (t : Text) → ends_with (b'.' ∷ []) (pointed t) ≡ true
last-pointed [] = refl
last-pointed (c ∷ t) = ground (arith, last-pointed t)

other_text : (q t : Text) → ends_with (b'.' ∷ []) q ≡ false → text_eq q (pointed t) ≡ false
other_text q t h = elim (Bool-cases (text_eq q (pointed t))) [
  | inl same ↦
      let e : q ≡ pointed t = (text_eq_iff q (pointed t)).0 same in cc (last-pointed t, rw e at h)
  | inr other ↦ other
]

-- A text that ends in a point ends in no text that does not.
ends_with-pointed :
    (q t : Text)
    → ends_with (b'.' ∷ []) q ≡ false
    → is_empty q ≡ false
    → ends_with q (pointed t) ≡ false
ends_with-pointed q [] h k = ground (arith, other_text q [] h)
ends_with-pointed q (c ∷ t) h k = ground (arith, other_text q (c ∷ t) h, ends_with-pointed q t h k)

split_on-nonempty : (c : ℕ) (s : Text) → (p : Text) × (ps : List Text) × (split_on c s ≡ p ∷ ps)
unfolding split_on
split_on-nonempty c [] = ([], [], refl)
split_on-nonempty c (a ∷ s) =
    let (p, ps, e) = split_on-nonempty c s in
    elim (Bool-cases (a == c)) [
      | inl here ↦ ([], split_on c s, rw here)
      | inr other ↦ (a ∷ p, ps, rw (other, e))
    ]

-- A point at the end opens one more part, which is empty.
split_on-pointed : (t : Text) → split_on b'.' (pointed t) ≡ split_on b'.' t ++ [] ∷ []
unfolding split_on
split_on-pointed [] = refl
split_on-pointed (c ∷ t) =
    let (p, ps, e) = split_on-nonempty b'.' t in
    elim (Bool-cases (c == b'.')) [
      | inl here ↦ rw (here, split_on-pointed t)
      | inr other ↦ rw (other, split_on-pointed t, e)
    ]

every-last : (ps : List Text) → every is_short_number (ps ++ [] ∷ []) ≡ false
every-last [] = refl
every-last (p ∷ ps) = ground (arith, every-last ps)

not-dotted_quad : (t : Text) → is_dotted_quad (pointed t) ≡ false
unfolding is_dotted_quad
not-dotted_quad t = rw (split_on-pointed t) (ground (arith, every-last (split_on b'.' t)))

has_point : (t : Text) → has_unit b'.' (pointed t) ≡ true
has_point [] = refl
has_point (c ∷ t) = ground (arith, has_point t)

not_empty : (t : Text) → is_empty (pointed t) ≡ false
not_empty [] = refl
not_empty (c ∷ t) = refl

not_nil : (t : Text) → pointed t ≢ []
not_nil [] = cc
not_nil (c ∷ t) = cc

accepted :
    (t : Text)
    → All (λ c. is_host_unit c ≡ true) (pointed t)
    → check_host (pointed t) ≡ ok (pointed t)
unfolding check_host is_rejected
accepted t h =
    rw (not_empty t, All-every (pointed t) h, has_point t, not_localhost (pointed t) (has_point t))
      (rw (
        ends_with-pointed (codes ".local") t refl refl,
        ends_with-pointed (codes ".internal") t refl refl,
        not-dotted_quad t,
      ))

strip_point-pointed : (t : Text) → strip_point (pointed (pointed t)) ≡ pointed t
unfolding strip_point
strip_point-pointed [] = refl
strip_point-pointed (c ∷ []) = refl
strip_point-pointed (c ∷ d ∷ t) = ap (λ s. c ∷ s) (strip_point-pointed (d ∷ t))

-- Any text of host characters is accepted as a domain when two points follow it, also a local
-- name, an internal name or a raw IP address.
pub normalize_domain-two_points :
    (url_hostname : Text → Option Text) (t : Text)
    → All (λ c. is_host_unit c ≡ true) t
    → normalize_domain url_hostname (t ++ codes "..") ≡ ok (t ++ codes ".")
normalize_domain-two_points url_hostname t h =
    let one = All-append (λ c. is_host_unit c ≡ true) t (b'.' ∷ []) h (refl, tt) in
    let two = All-append (λ c. is_host_unit c ≡ true) (pointed t) (b'.' ∷ []) one (refl, tt) in
    ap (normalize_domain url_hostname) (sym (append_assoc t (b'.' ∷ []) (b'.' ∷ [])))
    ∙ normalize_domain-host url_hostname (pointed (pointed t)) two (not_nil (pointed t))
    ∙ ap check_host (strip_point-pointed t)
    ∙ accepted t one
