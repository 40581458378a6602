-- ===== src/Auth/Origin.antt =====
-- The guard against cross-site requests and the address of a client: apps/web/lib/auth/csrf.ts and
-- `clientIpHash` and `assertSameOrigin` of apps/web/lib/auth/http.ts. The URL parser and the hash of
-- an address are parameters.
use geo_readiness.Common.{Bool, false, Option, none, some, List, [], ◌∷◌, if◌then◌else◌, head?}
use geo_readiness.Common.Text.{Text, text_eq, is_empty, trim, split_on, has_text}

pub record Web : Type 0 where
  pub url_host : Text → Option Text
  pub url_hostname : Text → Option Text
  pub hash_ip : Text → Text

pub record Headers : Type 0 where
  pub host : Option Text
  pub origin : Option Text
  pub referer : Option Text
  pub forwarded_for : Option Text

abbrev source_of : Option Text → Option Text → Option Text
source_of none referer = referer
source_of (some origin) referer = some origin

abbrev is_allowed : Option Text → List Text → Bool
is_allowed none hosts = false
is_allowed (some host) hosts = has_text host hosts

abbrev is_from : Web → Option Text → List Text → Bool
is_from web none hosts = false
is_from web (some source) hosts =
    if is_empty source then false else is_allowed (web.url_host source) hosts

unfoldable pub is_same_origin : Web → Option Text → Option Text → List Text → Bool
is_same_origin web origin referer hosts = is_from web (source_of origin referer) hosts

abbrev passes_for : Web → Headers → Option Text → Bool
passes_for web h none = false
passes_for web h (some host) =
    if is_empty host then false else is_same_origin web h.origin h.referer (host ∷ [])

-- Whether `assertSameOrigin` does not throw `forbidden`.
unfoldable pub passes_origin : Web → Headers → Bool
passes_origin web h = passes_for web h h.host

abbrev hash_given : Web → Text → Option Text
hash_given web ip = if is_empty ip then none else some (web.hash_ip ip)

abbrev first_ip : Web → Option Text → Option Text
first_ip web none = none
first_ip web (some ip) = hash_given web (trim ip)

abbrev forwarded_ip : Web → Option Text → Option Text
forwarded_ip web none = none
forwarded_ip web (some forwarded) =
    if is_empty forwarded then none else first_ip web (head? (split_on b',' forwarded))

unfoldable pub client_ip_hash : Web → Headers → Option Text
client_ip_hash web h = forwarded_ip web h.forwarded_for

abbrev both_equal : Text → Text → Bool
both_equal cookie header =
    if is_empty cookie then false else if is_empty header then false else text_eq cookie header

unfoldable pub is_csrf_token_valid : Option Text → Option Text → Bool
is_csrf_token_valid none header = false
is_csrf_token_valid (some cookie) none = false
is_csrf_token_valid (some cookie) (some header) = both_equal cookie header
