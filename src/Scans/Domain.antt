-- ===== src/Scans/Domain.antt =====
-- The domain of the submit form: `normalizeDomain` of apps/web/lib/scans/domain.ts. The URL parser
-- of the runtime is a parameter: the host name of a text, or `none` where `new URL` throws.
pub mod Laws
pub mod Points
use geo_readiness.Common.{
  ℕ, Bool, true, false, Option, none, some, List, [], ◌∷◌, ◌++◌, ◌&&◌, ◌||◌, not, leb, ◌==◌,
  if◌then◌else◌, any, every,
}
use geo_readiness.Common.Text.{
  Text, codes, text_eq, is_empty, starts_with, ends_with, has_unit, trim, lower, before, is_digit,
}
use geo_readiness.Common.Patterns.{is_dotted_quad}
use geo_readiness.Errors.{
  Outcome, ok, err, domain_error, empty, invalid_url, invalid_domain, no_raw_ip,
}

-- `s.includes("://")`
abbrev pub has_scheme : Text → Bool
has_scheme [] = false
has_scheme (c ∷ s) = starts_with (codes "://") (c ∷ s) || has_scheme s

-- `s.replace(/\.$/, "")`
unfoldable pub strip_point : Text → Text
strip_point [] = []
strip_point (c ∷ []) = if c == b'.' then [] else c ∷ []
strip_point (c ∷ d ∷ s) = c ∷ strip_point (d ∷ s)

-- `[a-z0-9.-]`
abbrev pub is_host_unit : ℕ → Bool
is_host_unit c = (leb b'a' c && leb c b'z') || is_digit c || c == b'.' || c == b'-'

-- `^[a-z0-9.-]+$`
abbrev pub is_host_text : Text → Bool
is_host_text s = not (is_empty s) && every is_host_unit s

unfoldable pub is_rejected : Text → Bool
is_rejected s =
    not (is_host_text s)
    || not (has_unit b'.' s)
    || text_eq s (codes "localhost")
    || ends_with (codes ".local") s
    || ends_with (codes ".internal") s

-- The tests on the host, once it has lost a last point.
unfoldable pub check_host : Text → Outcome Text
unfolding is_rejected
check_host s =
    if is_rejected s
    then err (domain_error invalid_domain)
    else if is_dotted_quad s
    then err (domain_error no_raw_ip)
    else ok s

abbrev pub check_hostname : Option Text → Outcome Text
check_hostname none = err (domain_error invalid_url)
check_hostname (some s) = check_host (strip_point s)

unfoldable pub normalize_text : (Text → Option Text) → Text → Outcome Text
normalize_text url_hostname s =
    if is_empty s
    then err (domain_error empty)
    else if has_scheme s
    then check_hostname (url_hostname s)
    else check_hostname (some (before b'/' s))

unfoldable pub normalize_domain : (Text → Option Text) → Text → Outcome Text
normalize_domain url_hostname input = normalize_text url_hostname (lower (trim input))
