-- ===== src/Api/Unlock.antt =====
-- POST /api/scans/[id]/unlock: apps/web/app/api/scans/[id]/unlock/route.ts. The handler has the map
-- of the limiter and the data base as its state.
pub mod Sound
pub mod Shows
mod Tests
use geo_readiness.Common.{ℕ, Bool, true, false, Option, none, some, not, if◌then◌else◌}
use geo_readiness.Common.Text.{Text, codes, trim}
use geo_readiness.Errors.{Outcome, ok, err, Error, bad_body}
use geo_readiness.Http.{Response, answer_with, refuse, done}
use geo_readiness.Store.{World, M, return, throw, ◌>>=◌}
use geo_readiness.Auth.Origin.{Web, Headers, passes_origin, client_ip_hash}
use geo_readiness.Scans.Limiter.{Hits, allow, promo_limits}
use geo_readiness.Scans.Repository.{is_uuid}
use geo_readiness.Payments.{
  Env, PromoKind, PromoGrant, granted, already_entitled, not_found, limit_reached,
  classify_promo_code, grant_promo_entitlement,
}

-- The field `code` of the body: the body cannot be read, the field is no text, or it is.
pub data Json : Type 0 where
  unreadable no_text : Json
  text : Text → Json

pub record Request : Type 0 where
  pub headers : Headers
  pub body : Json

abbrev pub promo_response : PromoGrant → Response
promo_response not_found = refuse 404 (codes "not_found")
promo_response limit_reached = refuse 409 (codes "limit_reached")
promo_response granted = answer_with 200 done
promo_response already_entitled = answer_with 200 done

abbrev pub redeem_kind : Env → Text → Option PromoKind → M Response
redeem_kind env id none = return (refuse 403 (codes "invalid_code"))
redeem_kind env id (some kind) = do
  result ← grant_promo_entitlement env id kind
  return (promo_response result)

abbrev pub kind_of : Env → Json → Option PromoKind
kind_of env unreadable = none
kind_of env no_text = none
kind_of env (text code) = classify_promo_code env (trim code)

abbrev pub redeem_body : Env → Text → Json → M Response
redeem_body env id unreadable = throw bad_body
redeem_body env id no_text = redeem_kind env id (kind_of env no_text)
redeem_body env id (text code) = redeem_kind env id (kind_of env (text code))

unfoldable pub redeem_code : Env → Text → Json → M Response
redeem_code env id body =
    if not (is_uuid id) then return (refuse 404 (codes "not_found")) else redeem_body env id body

-- Nothing behind the origin check throws an `AuthError`.
abbrev pub caught : Outcome Response × World → Response × World
caught (ok r, w) = (r, w)
caught (err e, w) = (refuse 500 (codes "server_error"), w)

abbrev pub key_of : Option Text → Text
key_of none = codes "unknown"
key_of (some hash) = hash

abbrev pub after_limit : Env → Text → Request → World → Bool × Hits → (Response × World) × Hits
after_limit env id req w (false, hits) = ((refuse 429 (codes "rate_limited"), w), hits)
after_limit env id req w (true, hits) = (caught (redeem_code env id req.body w), hits)

unfoldable pub post_unlock : Env → Web → Request → Text → Hits → World → (Response × World) × Hits
post_unlock env web req id hits w =
    if not (passes_origin web req.headers)
    then ((refuse 403 (codes "forbidden"), w), hits)
    else after_limit env id req w
        (allow promo_limits w.now (key_of (client_ip_hash web req.headers)) hits)
